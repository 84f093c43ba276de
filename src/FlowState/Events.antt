-- ===== src/FlowState/Events.antt =====
-- A flow state summarises the sequence of events that led to it.
use estimators.Prelude.{◌≡◌, refl, sym, ap, ◌∙◌, List, [], ◌∷◌, ◌++◌, arith, true, false, Bool, not}
use estimators.FlowState.{
  FlowState, fs_null, fs_d, fs_p, fs_dp, fs_pd, fs_dpd, fs_error, flowstate_delimit,
  flowstate_packet, flowstate_concatenate, flowstate_beginp, flowstate_endp, flowstate_error,
}

pub data Event : Type 0 where
  packet delimiter : Event

abbrev pub observe : FlowState → Event → FlowState
observe fs packet = flowstate_packet fs
observe fs delimiter = flowstate_delimit fs

-- The state after a sequence of events, from a given state.
abbrev pub replay : FlowState → List Event → FlowState
replay fs [] = fs
replay fs (e ∷ es) = replay (observe fs e) es

-- Concatenation is associative on all seven states, so periods may be joined in any grouping.
concatenate_assoc :
    (a b c : FlowState)
    → flowstate_concatenate (flowstate_concatenate a b) c
      ≡ flowstate_concatenate a (flowstate_concatenate b c)
unfolding flowstate_concatenate
concatenate_assoc a b c = ground arith

observe-concatenate :
    (fs : FlowState) (e : Event) → observe fs e ≡ flowstate_concatenate fs (observe fs_null e)
unfolding flowstate_concatenate
observe-concatenate fs packet = refl
observe-concatenate fs delimiter = refl

-- Observing events from a state is concatenating it with the summary of those events, so the state
-- of two periods together is the concatenation of their states.
pub replay-concatenate :
    (fs : FlowState) (es : List Event) → replay fs es ≡ flowstate_concatenate fs (replay fs_null es)
replay-concatenate fs [] = unfold flowstate_concatenate in refl
replay-concatenate fs (e ∷ es) = cc (
  replay-concatenate (observe fs e) es,
  replay-concatenate (observe fs_null e) es,
  observe-concatenate fs e,
  concatenate_assoc fs (observe fs_null e) (replay fs_null es),
)

-- Whether a packet, a delimiter and later a packet, and a packet, a delimiter and a packet again
-- stand in this order among the events.
abbrev pub has_p : List Event → Bool
has_p [] = false
has_p (packet ∷ es) = true
has_p (delimiter ∷ es) = has_p es

abbrev pub has_dp : List Event → Bool
has_dp [] = false
has_dp (packet ∷ es) = has_dp es
has_dp (delimiter ∷ es) = has_p es

abbrev pub has_pdp : List Event → Bool
has_pdp [] = false
has_pdp (packet ∷ es) = has_dp es
has_pdp (delimiter ∷ es) = has_pdp es

-- What is still to come for the events to end in the error state.
abbrev fails_from : FlowState → List Event → Bool
fails_from fs_null es = has_pdp es
fails_from fs_d es = has_pdp es
fails_from fs_p es = has_dp es
fails_from fs_dp es = has_dp es
fails_from fs_pd es = has_p es
fails_from fs_dpd es = has_p es
fails_from fs_error es = true

fails_from-observe :
    (fs : FlowState) (e : Event) (es : List Event)
    → fails_from (observe fs e) es ≡ fails_from fs (e ∷ es)
unfolding flowstate_packet flowstate_delimit
fails_from-observe fs packet es = ground arith
fails_from-observe fs delimiter es = ground arith

error-replay :
    (fs : FlowState) (es : List Event) → flowstate_error (replay fs es) ≡ fails_from fs es
unfolding flowstate_error
error-replay fs [] = ground arith
error-replay fs (e ∷ es) = error-replay (observe fs e) es ∙ fails_from-observe fs e es

-- A flow that starts in the null state is in error exactly when a delimiter has come between two of
-- its packets.
pub error-iff-reappears : (es : List Event) → flowstate_error (replay fs_null es) ≡ has_pdp es
error-iff-reappears es = error-replay fs_null es

-- The states of a flow whose first event is a packet, a failed flow among them.
abbrev opens_with_packet : FlowState → Bool
opens_with_packet fs_p = true
opens_with_packet fs_pd = true
opens_with_packet fs_error = true
opens_with_packet _ = false

opens-replay :
    (fs : FlowState) (es : List Event)
    → opens_with_packet fs ≡ true
    → flowstate_beginp (replay fs es) ≡ not (flowstate_error (replay fs es))
unfolding flowstate_beginp flowstate_error flowstate_packet flowstate_delimit
opens-replay fs [] h = ground arith
opens-replay fs (packet ∷ es) h = opens-replay (flowstate_packet fs) es (ground arith)
opens-replay fs (delimiter ∷ es) h = opens-replay (flowstate_delimit fs) es (ground arith)

abbrev opens_delimited : FlowState → Bool
opens_delimited fs_null = false
opens_delimited fs_p = false
opens_delimited fs_pd = false
opens_delimited _ = true

delimited-replay :
    (fs : FlowState) (es : List Event)
    → opens_delimited fs ≡ true
    → flowstate_beginp (replay fs es) ≡ false
unfolding flowstate_beginp flowstate_packet flowstate_delimit
delimited-replay fs [] h = ground arith
delimited-replay fs (packet ∷ es) h = delimited-replay (flowstate_packet fs) es (ground arith)
delimited-replay fs (delimiter ∷ es) h = delimited-replay (flowstate_delimit fs) es (ground arith)

replay-snoc :
    (fs : FlowState) (es : List Event) (e : Event)
    → replay fs (es ++ e ∷ []) ≡ observe (replay fs es) e
replay-snoc fs [] e = refl
replay-snoc fs (x ∷ es) e = replay-snoc (observe fs x) es e

ends_with_packet :
    (fs : FlowState)
    → flowstate_endp (flowstate_packet fs) ≡ not (flowstate_error (flowstate_packet fs))
unfolding flowstate_endp flowstate_error flowstate_packet
ends_with_packet fs = ground arith

ends_delimited : (fs : FlowState) → flowstate_endp (flowstate_delimit fs) ≡ false
unfolding flowstate_endp flowstate_delimit
ends_delimited fs = ground arith

-- Of a flow that is not in error, `flowstate_beginp` tells that its first event is a packet and
-- `flowstate_endp` that its last one is; in the error state both are false.
boundaries :
    (es : List Event)
    → (flowstate_beginp (replay fs_null (packet ∷ es)) ≡ not (has_dp es))
      × (flowstate_beginp (replay fs_null (delimiter ∷ es)) ≡ false)
      × (flowstate_endp (replay fs_null (es ++ packet ∷ [])) ≡ not (has_pdp (es ++ packet ∷ [])))
      × (flowstate_endp (replay fs_null (es ++ delimiter ∷ [])) ≡ false)
unfolding flowstate_packet flowstate_delimit
boundaries es = (
  opens-replay fs_p es refl ∙ ap not (error-replay fs_p es),
  delimited-replay fs_d es refl,
  rw (replay-snoc fs_null es packet) (ends_with_packet (replay fs_null es))
      ∙ ap (λ s. not (flowstate_error s)) (sym (replay-snoc fs_null es packet))
      ∙ ap not (error-iff-reappears (es ++ packet ∷ [])),
  rw (replay-snoc fs_null es delimiter) (ends_delimited (replay fs_null es)),
)
