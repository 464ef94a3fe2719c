-- ===== src/NetworkHandler/Examples.antt =====
-- Concrete runs of the network handler.
use livekit_agent_sdk_go.Prelude.{
  ℕ, ◌<◌, ◌≡◌, refl, true, false, some, [], ◌∷◌, arith, inl, ◌==◌, if◌then◌else◌,
}
use livekit_agent_sdk_go.NetworkHandler.Errors.{
  plain_error, codes_of, is_network_error, any_contained,
}
use livekit_agent_sdk_go.NetworkHandler.{
  NetworkHandler, Resolver, addresses, temporary, other_error, sent, new_network_handler,
  write_message_with_retry,
}
use livekit_agent_sdk_go.NetworkHandler.Writes.{working, one_of_two_sent}
use livekit_agent_sdk_go.NetworkHandler.Lookups.{Repeats}

abbrev holding : NetworkHandler
holding = record (new_network_handler 0) {
  partial_write_buffer = 7 ∷ [];
  partial_write_message_type = 1;
}

-- The bytes 8 and 9 are lost, although the call answers nil.
one_of_two_sent_example :
    ((write_message_with_retry working 5 1 (8 ∷ 9 ∷ []) holding).1 ≡ sent)
    × ((write_message_with_retry working 5 1 (8 ∷ 9 ∷ []) holding).2 ≡ some (1, 7 ∷ []))
    × ((write_message_with_retry working 5 1 (8 ∷ 9 ∷ []) holding).0.partial_write_buffer ≡ [])
one_of_two_sent_example = one_of_two_sent 5 1 (8 ∷ 9 ∷ []) holding (omega arith)

abbrev fresh : NetworkHandler
fresh = new_network_handler 0

abbrev flaky : Resolver
flaky = record {
  done_before = λ i. false;
  answer = λ i. if i == 2 then addresses (1 ∷ []) else temporary;
  done_waiting = λ i. false;
}

flaky-Repeats : (i : ℕ) → i < 2 → Repeats flaky i
flaky-Repeats i h = (refl, inl (ground arith), refl)

abbrev down : Resolver
down = record { done_before = λ i. false; answer = λ i. other_error; done_waiting = λ i. false }

upper_case : is_network_error (plain_error (codes_of "read: Connection RESET by peer")) ≡ true
unfolding is_network_error any_contained
upper_case = refl
