-- ===== src/WorkloadClient/Key.antt =====
-- The keys of the cache of internal/controller/infrastructure/workload_client.go.
use Prim.Native.Char.{Char}
use Prim.Native.String.{◌++◌}
use text.Mathlib.TextLemmas.{
  nil-append, cons-append, head-eq_of_cons-eq, tail-eq_of_cons-eq, append_cancel_left,
}
use cluster_api_provider_kwo.Prelude.{String, ◌≡◌, ◌≢◌, refl, sym, ap, ◌∙◌}
use cluster_api_provider_kwo.WorkloadClient.{cache_key}

-- A text without `/`, as every name in Kubernetes is.
abbrev pub NoSlash : String → Type 0
NoSlash String.[] = Unit
NoSlash (String.◌∷◌ c s) = ◌≢◌ {A = Char} c "/" × NoSlash s

slash-append : (s : String) → "/" ++ s ≡ String.◌∷◌ "/" s
slash-append s = cons-append "/" "" s ∙ ap (String.◌∷◌ "/") (nil-append s)

split_at_slash :
    (a b s t : String)
    → NoSlash a
    → NoSlash b
    → a ++ ("/" ++ s) ≡ b ++ ("/" ++ t)
    → (a ≡ b) × (s ≡ t)
split_at_slash String.[] String.[] s t h k e =
    (refl, append_cancel_left "/" s t (simp nil-append at e))
split_at_slash String.[] (String.◌∷◌ d b) s t h k e =
    absurd (k.0 (sym (head-eq_of_cons-eq (simp (nil-append, cons-append, slash-append) at e))))
split_at_slash (String.◌∷◌ c a) String.[] s t h k e =
    absurd (h.0 (head-eq_of_cons-eq (simp (nil-append, cons-append, slash-append) at e)))
split_at_slash (String.◌∷◌ c a) (String.◌∷◌ d b) s t h k e =
    let rest_e = rw (cons-append c a ("/" ++ s), cons-append d b ("/" ++ t)) at e in
    let (same_rest, same_tail) = split_at_slash a b s t h.1 k.1 (tail-eq_of_cons-eq rest_e) in
    (cc (head-eq_of_cons-eq rest_e, same_rest), same_tail)

-- Two clusters whose namespaces have no slash share a key only if they are the same cluster.
pub cache_key-injective :
    (n ns m ms : String)
    → NoSlash ns
    → NoSlash ms
    → cache_key n ns ≡ cache_key m ms
    → (n ≡ m) × (ns ≡ ms)
unfolding cache_key
cache_key-injective n ns m ms h k e =
    let (same_namespace, same_name) = split_at_slash ns ms n m h k e in (same_name, same_namespace)
