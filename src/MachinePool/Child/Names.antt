-- ===== src/MachinePool/Child/Names.antt =====
-- The names that kwokmachinepool_controller.go gives to the children of a pool.
use text.Mathlib.TextLemmas.{append_cancel_left}
use Prim.Native.String.{◌++◌}
use cluster_api_provider_kwo.Prelude.{ℕ, ◌≡◌}
use cluster_api_provider_kwo.Prelude.Text.{decimal}
use cluster_api_provider_kwo.Prelude.Decimal.{decimal-injective}
use cluster_api_provider_kwo.Api.Kwok.{KwokMachinePool}
use cluster_api_provider_kwo.MachinePool.Child.{machine_name}

-- Children of a pool with different numbers have different names.
pub machine_name-injective :
    (pool : KwokMachinePool) (i j : ℕ) → machine_name pool i ≡ machine_name pool j → i ≡ j
unfolding machine_name
machine_name-injective pool i j e = decimal-injective i j (
    append_cancel_left "-" (decimal i) (decimal j)
      (append_cancel_left pool.metadata.name ("-" ++ decimal i) ("-" ++ decimal j) e))
