-- ===== src/Roster/Handles.antt =====
-- The identity of a handle, with and without fields written on it.
use tinyray.Common.{ℕ, some, ◌≡◌, arith, sym, ◌∙◌}
use tinyray.Identity.{identity, seat_key}
use tinyray.Identity.Injective.{identity_injective}
use tinyray.Roster.{
  NativeMember, Handle, read_field, write_field, pool_of, id_of, slot_of, incarnation_of,
  identity_of,
}

-- The cache prints an identity as Python does.
abbrev pub IsPrinted : NativeMember → Type 0
IsPrinted m = m.identity ≡ identity m.pool m.slot m.id m.incarnation

identity_of-fields :
    (h : Handle)
    → IsPrinted h.native
    → identity_of h ≡ identity (pool_of h) (slot_of h) (id_of h) (incarnation_of h)
unfolding identity_of read_field
identity_of-fields h p = ground (arith, p)

-- Two handles with one identity, whether it comes from the cache or from fields written on the
-- handle, name the same pool, the same seat (or id) and the same tenure.
pub identity_of-injective :
    (h h' : Handle)
    → IsPrinted h.native
    → IsPrinted h'.native
    → identity_of h ≡ identity_of h'
    → (pool_of h ≡ pool_of h')
      × (seat_key (slot_of h) (id_of h) ≡ seat_key (slot_of h') (id_of h'))
      × (incarnation_of h ≡ incarnation_of h')
identity_of-injective h h' p p' e =
    identity_injective (pool_of h) (pool_of h') (slot_of h) (slot_of h') (id_of h) (id_of h')
      (incarnation_of h) (incarnation_of h')
      (sym (identity_of-fields h p) ∙ e ∙ identity_of-fields h' p')

-- After a new tenure is written on a handle, its identity is the printed token of that tenure, with
-- the other fields as they were.
pub identity_of-write_field :
    (h : Handle) (incarnation : ℕ)
    → identity_of (write_field (λ o. record o { incarnation = some incarnation }) h)
      ≡ identity (pool_of h) (slot_of h) (id_of h) incarnation
unfolding identity_of write_field read_field
identity_of-write_field h incarnation = ground arith
