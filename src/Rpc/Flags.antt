-- ===== src/Rpc/Flags.antt =====
-- The server of src/qworker/rpc.py and the client read the parameter `follow` of a watch alike.
use dogqoder.Prelude.{◌≡◌, ap, ◌∙◌, Bool, false, Option, none, some, lookup}
use dogqoder.Json.{Json, Object, null, int, float, arr, obj, str}
use dogqoder.Rpc.Fields.{
  parsed, >>=-eq-parsed, parsed-injective, bool_of, or_reject, string, non_negative_integer,
  boolean, validate_fields,
}
use dogqoder.Rpc.Stream.{WatchRequest, read_watch}
use dogqoder.Rpc.Client.{follows, bool_in}

flag-follows :
    (o : Option Json) (b : Bool)
    → (elim o [ none ↦ parsed false | some v ↦ or_reject "follow must be a boolean." (bool_of v) ])
      ≡ parsed b
    → (elim (bool_in o) [ some t ↦ t | none ↦ false ]) ≡ b
flag-follows none b h = parsed-injective h
flag-follows (some (Json.bool t)) b h = parsed-injective h
flag-follows (some null) b h = cc
flag-follows (some (int n)) b h = cc
flag-follows (some (float t n)) b h = cc
flag-follows (some (str n)) b h = cc
flag-follows (some (arr n)) b h = cc
flag-follows (some (obj n)) b h = cc

boolean-follows :
    (params : Object) (b : Bool) → boolean "follow" false params ≡ parsed b → follows params ≡ b
unfolding boolean
boolean-follows params b h = flag-follows (lookup "follow" params) b h

pub follows-read_watch :
    (params : Object) (w : WatchRequest) → read_watch params ≡ parsed w → follows params ≡ w.follow
unfolding read_watch
follows-read_watch params w h =
    let (valid, checked, h1) = >>=-eq-parsed (validate_fields _ _ params) _ h in
    let (worker_id, named, h2) = >>=-eq-parsed (string "worker_id" params) _ h1 in
    let (since, counted, h3) = >>=-eq-parsed (non_negative_integer "since" 0 params) _ h2 in
    let (follow, flagged, h4) = >>=-eq-parsed (boolean "follow" false params) _ h3 in
    boolean-follows params follow flagged ∙ ap (λ r. r.follow) (parsed-injective h4)
