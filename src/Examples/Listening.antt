-- ===== src/Examples/Listening.antt =====
-- An object that is served, and its server.
use tinyray.Common.{ℕ, List, [], ◌∷◌, true, false, ◌≡◌, ◌⊎◌, ◌↔◌, refl}
use tinyray.Common.Text.{Text, codes}
use tinyray.Errors.{ok, err, value_error}
use tinyray.Rpc.{Error}
use tinyray.Serve.Batch.{is_method_name}
use tinyray.Server.{
  Attribute, absent, invocable, inert, callable, not_callable, scan, MethodServer, Use, tracks,
  urls, use_all, close,
}
use tinyray.Server.Scanned.{Offered, Served, SomeUnnameable, SomeRaising, scan_lem}
use tinyray.Server.Closing.{is_in, Tracked, close_lem}

-- a private attribute, a method, a number and an attribute of `__getattr__`
abbrev attributes : List (Attribute ℕ)
attributes =
    record { name = codes "_lock"; static = invocable; got = callable 1 }
    ∷ record { name = codes "add"; static = invocable; got = callable 2 }
    ∷ record { name = codes "size"; static = inert; got = not_callable }
    ∷ record { name = codes "step"; static = absent; got = callable 3 }
    ∷ []

scan_lem_example :
    ((out : List (Text × ℕ)) × (scan attributes ≡ ok out)
      × ((name : Text) (f : ℕ)
          → (Served name f out ↔ Offered name f attributes)
            × (Served name f out → is_method_name name ≡ true)))
    ⊎ ((scan attributes ≡ err value_error) × SomeUnnameable attributes)
    ⊎ ((e : Error) × (scan attributes ≡ err e) × SomeRaising e attributes)
scan_lem_example = scan_lem attributes

abbrev server_at : MethodServer ℕ
server_at = record {
  dispatch = (codes "add", 2) ∷ [];
  port = 9000;
  endpoints = [];
  closed = false;
  listening = true;
  dropped = [];
}

abbrev uses : List Use
uses = urls (codes "h") ∷ tracks (codes "k:1") ∷ urls (codes "h") ∷ []

close_lem_example :
    let now = use_all uses server_at in
    ((e : Text) → Tracked e 9000 uses → is_in e (close now).dropped ≡ true)
    × (close (close now) ≡ close now)
    × ((close now).listening ≡ false)
unfolding use_all tinyray.Server.use_server tinyray.Common.Text.text_eq tinyray.Endpoint.served_url
    tinyray.Common.Decimal.decimal
close_lem_example = close_lem uses server_at refl
