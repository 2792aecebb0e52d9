-- ===== src/Prelude/Text.antt =====
-- The texts that Go's `fmt`, `strconv` and `net` build, and slices of a text by bytes.
use Prim.Native.Nat.{ℕ, zero, suc, ◌/◌, ◌%◌, ◌<◌}
use Prim.Native.String.{String, ◌++◌, slice, len}
use mathlib.Core.Path.{◌≡◌, refl}
use mathlib.Core.Option.{Option, none, some}
use native.Mathlib.Omega.{arith}
use text.Mathlib.Text.{find?}
use cluster_api_provider_kwo.Prelude.Tests.{if◌then◌else◌, leb, ltb, is_some}

-- `s[k:]`: a run-time panic if `k` lies behind the end.
unfoldable pub slice_from : String → ℕ → Option String
slice_from s k = if leb k (len s) then some (slice s k (len s)) else none

abbrev pub digit : ℕ → String
digit d = slice "0123456789" d (suc d)

-- The digits of `n` before `rest`, with fuel.
unfoldable pub decimal_from : ℕ → ℕ → String → String
decimal_from zero n rest = rest
decimal_from (suc fuel) n rest =
    let more = decimal_from fuel (n / 10) (digit (n % 10) ++ rest) in
    if ltb n 10 then digit n ++ rest else more

-- `strconv.Itoa` and the verb `%d` of a number that is not negative.
unfoldable pub decimal : ℕ → String
unfolding decimal_from
decimal n = decimal_from (suc n) n ""

-- `suc n` rounds are enough: more of them change nothing.
decimal_from_enough :
    (f g n : ℕ) (rest : String) → n < f → n < g → decimal_from f n rest ≡ decimal_from g n rest
unfolding decimal_from
decimal_from_enough zero g n rest h k = absurd (omega arith)
decimal_from_enough (suc f) zero n rest h k = absurd (omega arith)
decimal_from_enough (suc f) (suc g) n rest h k =
    ground (arith, decimal_from_enough f g (n / 10) (digit (n % 10) ++ rest))

decimal_test : decimal 6443 ≡ "6443"
unfolding decimal
decimal_test = refl

-- `net.JoinHostPort`: a host with a colon, as an IPv6 address, is put in brackets.
unfoldable pub join_host_port : String → String → String
join_host_port host port =
    if is_some (find? host ":") then "[" ++ host ++ "]:" ++ port else host ++ ":" ++ port

join_host_port_test : join_host_port "fd00::2" "6443" ≡ "[fd00::2]:6443"
unfolding join_host_port
join_host_port_test = refl
