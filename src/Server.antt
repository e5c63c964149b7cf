-- ===== src/Server.antt =====
-- python/tinyray/_serve.py: `scan`, which finds the methods of the object that a process serves, and
-- the life of a `MethodServer`. What `dir`, `inspect.getattr_static`, `getattr` and `callable` say of
-- an attribute is its `Attribute`; `F` is the type of its callables. The native server is what it
-- listens and which endpoints it was told to drop.
pub mod Scanned
pub mod Closing
use tinyray.Common.{
  ℕ, List, [], ◌∷◌, ◌++◌, Option, none, some, Bool, true, false, not, ◌&&◌, ◌||◌, if◌then◌else◌,
  any, leb,
}
use tinyray.Common.Int.{ℤ, pos, negsuc}
use tinyray.Common.Text.{Text, codes, is_ascii, is_identifier, starts_with, text_eq}
use tinyray.Errors.{Result, ok, err, ◌>>=◌, ◌>>◌, raise_if, value_error, attribute_error}
use tinyray.Rpc.{Error}
use tinyray.Endpoint.{served_url}

-- What `getattr_static` finds: nothing, something callable or a classmethod, or anything else.
pub data Static : Type 0 where
  absent : Static
  invocable : Static
  inert : Static

-- What `getattr` gives is a callable, a class, or anything else; or it raises.
pub data Got (F : Type 0) : Type 0 where
  callable : F → Got F
  class_object : Got F
  not_callable : Got F
  get_raises : Error → Got F

pub record Attribute (F : Type 0) : Type 0 where
  pub name : Text
  pub static : Static
  pub got : Got F

-- name.startswith("_")
abbrev pub is_private : Text → Bool
is_private name = starts_with (codes "_") name

-- `callable(attr)` and not a class
unfoldable pub callable_of : {F : Type 0} → Got F → Result Error (Option F)
callable_of (callable f) = ok (some f)
callable_of class_object = ok none
callable_of not_callable = ok none
callable_of (get_raises e) = err e

-- `getattr(obj, name, None)` where nothing is found, and `getattr(obj, name)` for a callable and for
-- a classmethod: just the first takes an `AttributeError` for None
unfoldable pub bound : {F : Type 0} → Static → Got F → Result Error (Option F)
unfolding callable_of
bound absent (get_raises attribute_error) = ok none
bound absent got = callable_of got
bound invocable got = callable_of got
bound inert got = ok none

-- the callable that one round of `scan` would serve
unfoldable pub served_by : {F : Type 0} → Attribute F → Result Error (Option F)
unfolding bound
served_by a = if is_private a.name then ok none else bound a.static a.got

-- scan, over the attributes in the order of `dir`
unfoldable pub scan : {F : Type 0} → List (Attribute F) → Result Error (List (Text × F))
unfolding served_by
scan [] = ok []
scan (a ∷ attributes) =
    let rest = scan attributes in
    elim (served_by a) [
      | err e ↦ err e
      | ok none ↦ rest
      | ok (some f) ↦
          if not (is_ascii a.name && is_identifier a.name)
          then err value_error
          else elim rest [ err e ↦ err e | ok out ↦ ok ((a.name, f) ∷ out) ]
    ]

-- max_concurrency is not None and max_concurrency <= 0
unfoldable pub check_limit : Option ℤ → Result Error (Unit {0})
check_limit none = ok tt
check_limit (some (pos n)) = raise_if (leb n 0) value_error
check_limit (some (negsuc n)) = err value_error

-- MethodServer, with the native server's side: whether it listens, and the endpoints dropped
pub record MethodServer (F : Type 0) : Type 0 where
  pub dispatch : List (Text × F)
  pub port : ℕ
  pub endpoints : List Text
  pub closed : Bool
  pub listening : Bool
  pub dropped : List Text

-- MethodServer.__init__, on the port that the native server is given, if it can listen
unfoldable pub method_server :
    {F : Type 0} → List (Attribute F) → Option ℤ → Result Error ℕ → Result Error (MethodServer F)
method_server attributes limit listens = do
  check_limit limit
  methods ← scan attributes
  port ← listens
  ok (record {
    dispatch = methods;
    port = port;
    endpoints = [];
    closed = false;
    listening = true;
    dropped = [];
  })

module _ {F : Type 0} where
  -- track_endpoint, on a set
  unfoldable pub track_endpoint : Text → MethodServer F → MethodServer F
  track_endpoint endpoint s =
      if any (λ e. text_eq e endpoint) s.endpoints
      then s
      else record s { endpoints = endpoint ∷ s.endpoints }

  unfoldable pub url : Text → MethodServer F → Text × MethodServer F
  unfolding track_endpoint
  url advertise s =
      let endpoint = served_url advertise s.port in (endpoint, track_endpoint endpoint s)

  unfoldable pub close : MethodServer F → MethodServer F
  close s = if s.closed then s else record s {
    closed = true;
    listening = false;
    dropped = s.dropped ++ s.endpoints;
    endpoints = [];
    dispatch = [];
  }

  -- abandon, in the child of a fork
  unfoldable pub abandon : MethodServer F → MethodServer F
  abandon s = record s { closed = true; listening = false }

-- what is done with a server behind its construction
pub data Use : Type 0 where
  tracks : Text → Use
  urls : Text → Use
  closes : Use
  abandons : Use

unfoldable pub use_server : {F : Type 0} → Use → MethodServer F → MethodServer F
unfolding url track_endpoint close abandon
use_server (tracks endpoint) s = track_endpoint endpoint s
use_server (urls advertise) s = (url advertise s).1
use_server closes s = close s
use_server abandons s = abandon s

unfoldable pub use_all : {F : Type 0} → List Use → MethodServer F → MethodServer F
use_all [] s = s
use_all (u ∷ uses) s = use_all uses (use_server u s)
