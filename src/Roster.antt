-- ===== src/Roster.antt =====
-- python/tinyray/__init__.py: `Handle`, `Snapshot`, `Epoch` and `_native_seat`. A roster starts as a
-- view of the native cache, which is a parameter with the lookups that Python makes, and is turned
-- into handles once; or it is made from handles.
pub mod Handles
pub mod Methods
use tinyray.Common.{
  ℕ, List, [], ◌∷◌, Option, none, some, Bool, true, false, if◌then◌else◌, length, find, keep, ltb,
  ◌==◌, ◌&&◌, ◌^◌, map,
}
use tinyray.Common.Text.{Text, text_eq}
use tinyray.Errors.{Result, ok, err, not_found}
use tinyray.Rpc.{Error}
use tinyray.Identity.{identity}

-- A member as the native cache holds it.
pub record NativeMember : Type 0 where
  pub pool : Text
  pub id : ℕ
  pub slot : Option ℕ
  pub incarnation : ℕ
  pub ready : Bool
  pub identity : Text

-- The fields that were written on a handle; the inner `none` of `slot` is None.
pub record Overrides : Type 0 where
  pub pool : Option Text
  pub id : Option ℕ
  pub slot : Option (Option ℕ)
  pub incarnation : Option ℕ
  pub ready : Option Bool

abbrev pub no_overrides : Overrides
no_overrides = record { pool = none; id = none; slot = none; incarnation = none; ready = none }

-- Handle
pub record Handle : Type 0 where
  pub native : NativeMember
  pub overrides : Option Overrides

-- Handle._from_native
abbrev pub from_native : NativeMember → Handle
from_native member = record { native = member; overrides = none }

-- _read
unfoldable pub read_field {ℓ} :
    {A : Type ℓ} → (Overrides → Option A) → (NativeMember → A) → Handle → A
read_field written native h = elim h.overrides [
  | none ↦ native h.native
  | some o ↦ elim (written o) [ none ↦ native h.native | some a ↦ a ]
]

-- _write
unfoldable pub write_field : (Overrides → Overrides) → Handle → Handle
write_field change h = elim h.overrides [
  | none ↦ record h { overrides = some (change no_overrides) }
  | some o ↦ record h { overrides = some (change o) }
]

abbrev pub pool_of : Handle → Text
pool_of = read_field (λ o. o.pool) (λ m. m.pool)

abbrev pub id_of : Handle → ℕ
id_of = read_field (λ o. o.id) (λ m. m.id)

abbrev pub slot_of : Handle → Option ℕ
slot_of = read_field (λ o. o.slot) (λ m. m.slot)

abbrev pub incarnation_of : Handle → ℕ
incarnation_of = read_field (λ o. o.incarnation) (λ m. m.incarnation)

abbrev pub ready_of : Handle → Bool
ready_of = read_field (λ o. o.ready) (λ m. m.ready)

-- Handle.identity
unfoldable pub identity_of : Handle → Text
identity_of h = elim h.overrides [
  | none ↦ h.native.identity
  | some o ↦ identity (pool_of h) (slot_of h) (id_of h) (incarnation_of h)
]

-- Handle.__eq__, between handles
unfoldable pub handle_eq : Handle → Handle → Bool
handle_eq h h' =
    text_eq (pool_of h) (pool_of h') && id_of h == id_of h' && incarnation_of h == incarnation_of h'

-- h.slot == k
unfoldable pub sits_at : ℕ → Handle → Bool
sits_at k h = elim (slot_of h) [ none ↦ false | some s ↦ s == k ]

-- _native_seat, for an int
unfoldable pub native_seat : ℕ → Option ℕ
native_seat value = if ltb value (2 ^ 64) then some value else none

-- What a view of the native cache answers.
pub record View : Type 0 where
  pub size : ℕ
  pub all : List Handle
  pub ready : List Handle
  pub slot : ℕ → Option Handle
  pub get : Text → Option Handle

-- `_view` and `_materialized` of a snapshot or an epoch: one of them at least is not None
pub data Roster : Type 0 where
  viewed : View → Roster
  kept : View → List Handle → Roster
  materialized : List Handle → Roster

-- the property `members`, with the roster that it leaves behind
unfoldable pub members : Roster → List Handle × Roster
members (viewed view) = (view.all, kept view view.all)
members (kept view handles) = (handles, kept view handles)
members (materialized handles) = (handles, materialized handles)

-- __len__
unfoldable pub size_of : Roster → ℕ
size_of (viewed view) = view.size
size_of (kept view handles) = view.size
size_of (materialized handles) = length handles

-- Snapshot.ready
unfoldable pub ready_members : Roster → List Handle
ready_members (viewed view) = view.ready
ready_members (kept view handles) = keep ready_of handles
ready_members (materialized handles) = keep ready_of handles

-- Snapshot.slot
unfoldable pub slot_in : ℕ → Roster → Option Handle
slot_in k (viewed view) = elim (native_seat k) [ none ↦ none | some seat ↦ view.slot seat ]
slot_in k (kept view handles) = find (sits_at k) handles
slot_in k (materialized handles) = find (sits_at k) handles

-- Snapshot.get
unfoldable pub get_in : Text → Roster → Option Handle
get_in who (viewed view) = view.get who
get_in who (kept view handles) = find (λ h. text_eq (identity_of h) who) handles
get_in who (materialized handles) = find (λ h. text_eq (identity_of h) who) handles

-- Epoch.slot
unfoldable pub epoch_slot : ℕ → Roster → Result Error Handle
unfolding slot_in
epoch_slot k roster = elim (slot_in k roster) [ none ↦ err not_found | some h ↦ ok h ]
