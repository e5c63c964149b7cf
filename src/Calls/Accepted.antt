-- ===== src/Calls/Accepted.antt =====
-- `_batch_payload` against the checks that `_Dispatch._batch` makes of a request.
use mathlib.Core.Path.{subst}
use tinyray.Common.{
  ℕ, suc, ◌+◌, ◌≤◌, List, [], ◌∷◌, some, true, ◌≡◌, refl, arith, length, inl, inr, ap, ◌∙◌,
}
use tinyray.Common.Text.{Text, text_eq}
use tinyray.Errors.{ok, Result-cases}
use tinyray.Value.{Value, Entries, of_list, to_list-of_list, get, keys_are, has_key, keys_among}
use tinyray.Serve.Batch.{
  Item, is_method_name, has_text_keys, item_of, check_item, check_items, calls_of, check_batch,
  max_batch,
}
use tinyray.Calls.{
  Given, a_call, no_call, call_dict, method_text, args_list, kwargs_dict, call_payload,
  given_payload, payloads_from, batch_payload, batch_dict,
}

check_item-call_dict :
    (name : Text) (args : List Value) (kwargs : Entries)
    → is_method_name name ≡ true
    → has_text_keys kwargs ≡ true
    → check_item (call_dict name args kwargs)
      ≡ ok (record { method = name; args = of_list args; kwargs = kwargs })
unfolding check_item keys_are get text_eq item_of
check_item-call_dict name args kwargs h k = ground arith

method_text-ok : (m : Value) (name : Text) → method_text m ≡ ok name → is_method_name name ≡ true
unfolding method_text
method_text-ok m name h = ground arith

kwargs_dict-ok :
    (k : Value) (kwargs : Entries) → kwargs_dict k ≡ ok kwargs → has_text_keys kwargs ≡ true
unfolding kwargs_dict has_text_keys
kwargs_dict-ok k kwargs h = ground arith

given-check_item :
    (given : Given) (v : Value)
    → given_payload given ≡ ok v
    → (item : Item) × (check_item v ≡ ok item)
unfolding given_payload call_payload
given-check_item no_call v h = absurd (ground arith)
given-check_item (a_call call) v h = elim (Result-cases (method_text call.method)) [
  | inr (e, p) ↦ absurd (ground arith)
  | inl (name, p) ↦ elim (Result-cases (args_list call.args)) [
    | inr (e, q) ↦ absurd (ground arith)
    | inl (args, q) ↦ elim (Result-cases (kwargs_dict call.kwargs)) [
      | inr (e, r) ↦ absurd (ground arith)
      | inl (kwargs, r) ↦
          let built : call_dict name args kwargs ≡ v = ground arith in
          (
            record { method = name; args = of_list args; kwargs = kwargs },
            subst
                (λ x.
                  check_item x
                  ≡ ok (record { method = name; args = of_list args; kwargs = kwargs }))
                built
                (check_item-call_dict name args kwargs (method_text-ok call.method name p)
                  (kwargs_dict-ok call.kwargs kwargs r)),
          )
    ]
  ]
]

abbrev IsChecked : ℕ → List Given → List Value → Type 0
IsChecked index calls vs =
    (index + length vs ≤ max_batch)
    × (length vs ≡ length calls)
    × (items : List Item) × (check_items vs ≡ ok items)
    × (length items ≡ length vs)

payloads_from-IsChecked :
    (index : ℕ) (calls : List Given) (vs : List Value)
    → payloads_from index calls ≡ ok vs
    → index ≤ max_batch
    → IsChecked index calls vs
unfolding payloads_from check_items
payloads_from-IsChecked index [] [] h small = (omega arith, refl, [], refl, refl)
payloads_from-IsChecked index [] (v ∷ vs) h small = absurd (ground arith)
payloads_from-IsChecked index (given ∷ calls) vs h small =
    elim (Result-cases (given_payload given)) [
      | inr (e, p) ↦ absurd (ground arith)
      | inl (v, p) ↦ elim (Result-cases (payloads_from (index + 1) calls)) [
        | inr (e, q) ↦ absurd (ground arith)
        | inl (rest, q) ↦
            let (item, checked) = given-check_item given v p in
            let room : index + 1 ≤ max_batch = ground arith in
            let built : v ∷ rest ≡ vs = ground arith in
            let (fits, same, items, all_checked, size) =
              payloads_from-IsChecked (index + 1) calls rest q room in
            subst (IsChecked index (given ∷ calls)) built (
              omega arith,
              ap suc same,
              item ∷ items,
              ground (arith, checked, all_checked),
              ap suc size,
            )
      ]
    ]

check_batch-batch_dict :
    (vs : List Value) (items : List Item) (n : ℕ)
    → check_items vs ≡ ok items
    → length vs ≡ n
    → n ≤ max_batch
    → check_batch (batch_dict vs) (some n) ≡ ok items
unfolding check_batch calls_of keys_are get text_eq has_key keys_among
check_batch-batch_dict vs items n h same small = rw (to_list-of_list vs) (ground (arith, h))

-- What `_batch_payload` builds, the server's checks accept: with the number of calls as the length
-- in the envelope, the items that it runs are as many as the calls, and at most 128.
pub batch_payload-check_batch :
    (calls : List Given) (vs : List Value)
    → batch_payload calls ≡ ok vs
    → (items : List Item) × (check_batch (batch_dict vs) (some (length calls)) ≡ ok items)
      × (length items ≡ length calls)
      × (length calls ≤ max_batch)
unfolding batch_payload
batch_payload-check_batch calls vs h =
    let (fits, same, items, checked, size) = payloads_from-IsChecked 0 calls vs h (omega arith) in
    (
      items,
      check_batch-batch_dict vs items (length calls) checked same (omega (arith, same)),
      size ∙ same,
      omega (arith, same),
    )

pub length-batch_payload :
    (calls : List Given) (vs : List Value) → batch_payload calls ≡ ok vs → length vs ≡ length calls
unfolding batch_payload
length-batch_payload calls vs h =
    let (fits, same, items, checked, size) = payloads_from-IsChecked 0 calls vs h (omega arith) in
    omega (arith, same)
