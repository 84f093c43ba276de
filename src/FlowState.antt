-- ===== src/FlowState.antt =====
-- flowstate.c: what a flow has shown so far, as a word over packets (P) and delimiters (D).
pub mod Events
use estimators.Prelude.{Bool, true, false}

pub data FlowState : Type 0 where
  fs_null fs_d fs_p fs_dp fs_pd fs_dpd fs_error : FlowState

unfoldable pub flowstate_delimit : FlowState → FlowState
flowstate_delimit fs_null = fs_d
flowstate_delimit fs_d = fs_d
flowstate_delimit fs_p = fs_pd
flowstate_delimit fs_pd = fs_pd
flowstate_delimit fs_dp = fs_dpd
flowstate_delimit fs_dpd = fs_dpd
flowstate_delimit fs_error = fs_error

unfoldable pub flowstate_packet : FlowState → FlowState
flowstate_packet fs_null = fs_p
flowstate_packet fs_p = fs_p
flowstate_packet fs_d = fs_dp
flowstate_packet fs_dp = fs_dp
flowstate_packet fs_pd = fs_error
flowstate_packet fs_dpd = fs_error
flowstate_packet fs_error = fs_error

unfoldable pub flowstate_concatenate : FlowState → FlowState → FlowState
unfolding flowstate_delimit flowstate_packet
flowstate_concatenate fs1 fs_null = fs1
flowstate_concatenate fs1 fs_d = flowstate_delimit fs1
flowstate_concatenate fs1 fs_p = flowstate_packet fs1
flowstate_concatenate fs1 fs_dp = flowstate_packet (flowstate_delimit fs1)
flowstate_concatenate fs1 fs_pd = flowstate_delimit (flowstate_packet fs1)
flowstate_concatenate fs1 fs_dpd = flowstate_delimit (flowstate_packet (flowstate_delimit fs1))
flowstate_concatenate fs1 fs_error = fs_error

-- The macros `flowstate_beginp`, `flowstate_endp` and `flowstate_error`.
unfoldable pub flowstate_beginp : FlowState → Bool
flowstate_beginp fs_p = true
flowstate_beginp fs_pd = true
flowstate_beginp _ = false

unfoldable pub flowstate_endp : FlowState → Bool
flowstate_endp fs_p = true
flowstate_endp fs_dp = true
flowstate_endp _ = false

unfoldable pub flowstate_error : FlowState → Bool
flowstate_error fs_error = true
flowstate_error _ = false
