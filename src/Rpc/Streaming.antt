-- ===== src/Rpc/Streaming.antt =====
-- A watch of src/qworker/rpc.py from end to end: the client's `watch` against the server's stream.
use dogqoder.Prelude.{
  ℕ, ◌≡◌, refl, sym, ap, ◌∙◌, inl, inr, Bool, true, false, not, ◌&&◌, some, String, List, [], ◌∷◌,
  if◌then◌else◌, Bool-cases, contains,
}
use dogqoder.Json.{Json, Object, obj, str, from_fields}
use dogqoder.Events.Copy.{fields-from_fields}
use dogqoder.Store.Operations.{number}
use dogqoder.Preflight.{normalize_preflight_warnings}
use dogqoder.Rpc.Size.{fits}
use dogqoder.Rpc.Requests.{valid_request_id, success, failure, frame_limit_message}
use dogqoder.Rpc.Bounds.{fits-oversized}
use dogqoder.Rpc.Report.{write_failure, report_oversized}
use dogqoder.Rpc.Stream.{
  StreamEnd, complete, stopped, overflow, Streamed, emit_events, event_result, end_result,
  settle_stream, terminal_states,
}
use dogqoder.Rpc.Client.{
  got, client_error, too_large, received, validated_response, read_stream, read_frame, read_end,
  event, over, Yielded, yield,
}
use dogqoder.Rpc.Exchange.{read-success, read-failure}

-- The frames that a stream of events comes to, as the client is to see them: the events up to the
-- first frame beyond the limit.
unfoldable pub seen : String → List Object → Yielded → Yielded
unfolding fits success
seen id [] rest = rest
seen id (e ∷ es) rest =
    let more = seen id es rest in
    if fits (success (str id) (event_result e)) then (e ∷ more.0, more.1) else ([], too_large)

pub validated-success :
    (id : String) (v : Json)
    → validated_response id (some (obj (from_fields (success (str id) v)))) ≡ got v
unfolding validated_response
validated-success id v = read-success id v

read-event : (follow : Bool) (e : Object) → read_frame follow (got (event_result e)) ≡ event e
unfolding read_frame
read-event follow e = rw (fields-from_fields e) refl

not-false : (b : Bool) → not b ≡ false → b ≡ true
not-false true h = refl
not-false false h = sym h

pub read-end-frame :
    (follow : Bool) (n : ℕ) (state : String)
    → (follow && not (contains terminal_states state)) ≡ false
    → read_frame follow (got (end_result follow (number n) state)) ≡ over (got tt)
unfolding read_frame read_end
read-end-frame false n state h = refl
read-end-frame true n state h = rw (not-false (contains terminal_states state) h) refl

pub settle-cons :
    (id : Json) (f : Object) (fs : List Object) (e : StreamEnd)
    → (settle_stream id (f ∷ fs, e)).written ≡ f ∷ (settle_stream id (fs, e)).written
unfolding settle_stream
settle-cons id f fs complete = refl
settle-cons id f fs (stopped fault) = refl
settle-cons id f fs overflow = refl

module _ (id : String) (follow : Bool) (valid : valid_request_id id ≡ true) where
  -- What the client reads of a stream.
  unfoldable pub reads : Streamed → Yielded
  unfolding settle_stream read_stream
  reads t = read_stream id follow (received (settle_stream (str id) t).written)

  pub reads-success :
      (v : Json) (fs : List Object) (e : StreamEnd)
      → reads (success (str id) v ∷ fs, e) ≡ yield (read_frame follow (got v)) (reads (fs, e))
  unfolding reads read_stream
  reads-success v fs e =
      ap (λ ws. read_stream id follow (received ws))
        (settle-cons (str id) (success (str id) v) fs e)
      ∙ ap (λ c. yield (read_frame follow c) (reads (fs, e))) (validated-success id v)

  pub read-failed :
      (code message : String) (ws : List String)
      → normalize_preflight_warnings ws ≡ ws
      → read_stream id follow (received (failure (str id) code message ws ∷ []))
        ≡ ([], client_error code message ws)
  unfolding read_stream validated_response read_frame
  read-failed code message ws h =
      ap (λ c. yield (read_frame follow c) (read_stream id follow []))
        (read-failure id code message ws h)

  pub reads-overflow : reads ([], overflow) ≡ ([], too_large)
  unfolding reads settle_stream report_oversized write_failure normalize_preflight_warnings
  reads-overflow =
      rw (fits-oversized id valid) (read-failed "frame_too_large" frame_limit_message [] refl)

  pub reads-emit_events :
      (es : List Object) (rest : Streamed)
      → reads (emit_events (str id) es rest) ≡ seen id es (reads rest)
  unfolding emit_events seen
  reads-emit_events [] rest = refl
  reads-emit_events (e ∷ es) rest = elim (Bool-cases (fits (success (str id) (event_result e)))) [
    | inl small ↦ rw small (
        reads-success (event_result e) (emit_events (str id) es rest).0
          (emit_events (str id) es rest).1
        ∙ rw (read-event follow e) (ap (λ y. (e ∷ y.0, y.1)) (reads-emit_events es rest)))
    | inr large ↦ rw large reads-overflow
  ]
