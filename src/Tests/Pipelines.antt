-- ===== src/Tests/Pipelines.antt =====
-- The scope and the context of a pipeline.
use apigate.Prelude.{
  ℕ, ◌≡◌, refl, [], ◌∷◌, String, Option, none, some, Result, ok, err, ◌==◌, length, leb,
  if◌then◌else◌,
}
use apigate.Str.{Str, codes}
use apigate.Error.{PipelineError}
use apigate.Pipeline.{PartsCtx, RequestScope, TypeMap, take_body, read_body_bytes}
use apigate.Pipeline.Scope.{read_body_bytes_once}
use apigate.Tests.Instance.{Address, small_http}

abbrev pub small_map : TypeMap
small_map = record {
  Extensions = ℕ → Option ℕ;
  Key = ℕ;
  Value = ℕ;
  same = λ k m. k == m;
  get = λ e k. e k;
  insert = λ e k v m. if k == m then some v else e m;
  remove = λ e k m. if k == m then none else e m;
  get-insert = λ e k m v. refl;
  get-remove = λ e k m. refl;
}

abbrev shared : ℕ → Option ℕ
shared k = some 7

abbrev nothing : ℕ → Option ℕ
nothing k = none

abbrev pub scope : RequestScope Str (ℕ → Option ℕ)
scope = record {
  shared = shared;
  scoped = nothing;
  body = some (codes "{}");
  raw_body = none;
  body_limit = 10;
}

abbrev pub up_to : Str → ℕ → Result String Str
up_to s limit = if leb (length s) limit then ok s else err "too long"

abbrev pub ctx : PartsCtx small_http
ctx = record {
  service = codes "shop";
  route_path = codes "/items";
  parts = record {
    method = codes "GET";
    uri = record { scheme = none; authority = none; path_and_query = some (codes "/items?a=1") };
    headers = (codes "x-user", codes "1") ∷ [];
  };
}

abbrev root : Address
root = record { scheme = none; authority = none; path_and_query = some (codes "/") }

read_body_bytes_once_example :
    ((read_body_bytes up_to (read_body_bytes up_to scope).0).1
      ≡ err PipelineError.request_body_already_consumed)
    × ((read_body_bytes up_to (take_body scope).0).1
        ≡ err PipelineError.request_body_already_consumed)
read_body_bytes_once_example = read_body_bytes_once up_to scope
