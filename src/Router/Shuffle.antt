-- ===== src/Router/Shuffle.antt =====
-- internal/router/shuffle.go: a shuffled deck of the healthy providers, dealt one by one.
pub mod Deck
use cc_relay.Base.{
  ℕ, zero, suc, ◌+◌, ◌≡◌, Bool, not, ◌||◌, List, [], ◌∷◌, Result, ok, err, panic, at, Lo, is_empty,
  length, leb, ◌==◌, if◌then◌else◌,
}
use cc_relay.Router.Info.{ProviderInfo, with_healthy}

pub record ShuffleRouter : Type 0 where
  pub shuffled_order : List ℕ
  pub position : ℕ
  pub last_len : ℕ

unfoldable pub new_shuffle_router : ShuffleRouter
new_shuffle_router = record { shuffled_order = []; position = 0; last_len = 0 }

-- The indices `i`, `i + 1`, …, `n` of them.
abbrev pub indices : ℕ → ℕ → List ℕ
indices i zero = []
indices i (suc n) = i ∷ indices (suc i) n

unfoldable pub reshuffle : Lo → ℕ → ℕ → ShuffleRouter
reshuffle lo seed num_providers = record {
  shuffled_order = lo.shuffle seed (indices 0 num_providers);
  position = 0;
  last_len = num_providers;
}

unfoldable pub needs_reshuffle : ShuffleRouter → ℕ → Bool
needs_reshuffle r n =
    is_empty r.shuffled_order || not (n == r.last_len) || leb (length r.shuffled_order) r.position

-- `r.shuffledOrder[r.position]`, `r.position++`, `healthy[idx]`.
unfoldable pub deal : ShuffleRouter → List ProviderInfo → Result ProviderInfo × ShuffleRouter
deal r healthy = elim (at r.shuffled_order r.position) [
  | ok idx ↦ (at healthy idx, record r { position = r.position + 1 })
  | err e ↦ (err e, r)
  | panic ↦ (panic, r)
]

unfoldable pub select_dealt :
    Lo → ℕ → ShuffleRouter → List ProviderInfo → Result ProviderInfo × ShuffleRouter
select_dealt lo seed r healthy =
    let n = length healthy in deal (if needs_reshuffle r n then reshuffle lo seed n else r) healthy

-- `seed` is what the random source holds at the call.
unfoldable pub select_shuffle :
    Lo → ℕ → ShuffleRouter → List ProviderInfo → Result ProviderInfo × ShuffleRouter
select_shuffle lo seed r providers = with_healthy lo r providers (select_dealt lo seed r)
