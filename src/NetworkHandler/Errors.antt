-- ===== src/NetworkHandler/Errors.antt =====
-- The errors of a write, and isNetworkError (pkg/agent/network_handler.go). Texts are lists of ASCII
-- codes.
use Prim.Native.Char.{code}
use livekit_agent_sdk_go.Prelude.{
  ℕ, ◌+◌, String, Bool, true, false, ◌&&◌, ◌||◌, List, [], ◌∷◌, leb, ◌==◌, if◌then◌else◌,
}

-- A net.Error that is temporary or not, an error that wraps a net.Error, and any other one, with its
-- text.
pub data WriteError : Type 0 where
  net_error : Bool → WriteError
  wrapped_net_error : WriteError
  plain_error : List ℕ → WriteError

-- `err.(net.Error)` does not look inside a wrapped error.
unfoldable pub is_temporary : WriteError → Bool
is_temporary (net_error temporary) = temporary
is_temporary wrapped_net_error = false
is_temporary (plain_error text) = false

abbrev pub codes_of : String → List ℕ
codes_of String.[] = []
codes_of (String.◌∷◌ c s) = code c ∷ codes_of s

-- strings.ToLower on ASCII.
unfoldable pub to_lower : List ℕ → List ℕ
to_lower [] = []
to_lower (c ∷ cs) = (if leb 65 c && leb c 90 then c + 32 else c) ∷ to_lower cs

unfoldable pub has_prefix : List ℕ → List ℕ → Bool
has_prefix [] s = true
has_prefix (p ∷ ps) [] = false
has_prefix (p ∷ ps) (c ∷ cs) = (p == c) && has_prefix ps cs

-- strings.Contains
unfoldable pub has_infix : List ℕ → List ℕ → Bool
unfolding has_prefix
has_infix part [] = has_prefix part []
has_infix part (c ∷ cs) = has_prefix part (c ∷ cs) || has_infix part cs

unfoldable pub contains_net_error : List ℕ → List ℕ → Bool
unfolding has_infix to_lower
contains_net_error s part = has_infix (to_lower part) (to_lower s)

abbrev pub network_errors : List (List ℕ)
network_errors =
    codes_of "connection reset"
    ∷ codes_of "broken pipe"
    ∷ codes_of "connection refused"
    ∷ codes_of "no route to host"
    ∷ codes_of "network is unreachable"
    ∷ codes_of "connection timed out"
    ∷ []

unfoldable pub any_contained : List ℕ → List (List ℕ) → Bool
unfolding contains_net_error
any_contained s [] = false
any_contained s (part ∷ parts) = if contains_net_error s part then true else any_contained s parts

-- A nil error does not reach the test.
unfoldable pub is_network_error : WriteError → Bool
unfolding any_contained
is_network_error (net_error temporary) = true
is_network_error wrapped_net_error = true
is_network_error (plain_error text) = any_contained text network_errors
