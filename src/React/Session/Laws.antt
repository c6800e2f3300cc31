-- ===== src/React/Session/Laws.antt =====
-- New credentials reach the stream.
use chimely.Prelude.{
  ℕ, String, true, false, Option, some, [], ◌∷◌, map, ◌≡◌, ◌≢◌, ◌&&◌, refl, arith, Bool-cases, inl,
  inr,
}
use chimely.Types.{ConnectionStatus, idle, connecting, closed}
use chimely.Client.State.{Client, Stream}
use chimely.Client.Refresh.{refresh, do_refresh}
use chimely.Client.Connection.{
  is_open_status, connect, set_credentials, open_stream, stream_url, same_text, same_number,
}
use chimely.Client.Lifecycle.{ConnectionInv, IsDetached, IsDetached-of_not_open}
use chimely.Client.Lifecycle.Quiet.{set_credentials_reopens}
use chimely.React.Session.{change_credentials}

closed_of_not_open : (s : ConnectionStatus) → is_open_status s ≡ false → s ≢ idle → s ≡ closed
closed_of_not_open idle o n = absurd (n refl)
closed_of_not_open closed o n = refl
closed_of_not_open _ o n = let clash : ⊥ = ground arith in absurd clash

-- The stream, the timers and the status after new credentials.
abbrev pub Reaches : String → Option ℕ → Client → Type 0
Reaches hash expires_at d =
    (d.config.subscriber_hash ≡ some hash)
    × (d.config.subscriber_hash_expires_at ≡ expires_at)
    × (map (λ (s : Stream). s.url) d.connection.streams ≡ stream_url d ∷ [])
    × (d.connection.timers ≡ [])
    × (d.store.snapshot.status ≡ connecting)

module _ (hash : String) (expires_at : Option ℕ) (c : Client) (v : ConnectionInv c)
    (differ : (same_text (some hash) c.config.subscriber_hash
        && same_number expires_at c.config.subscriber_hash_expires_at)
      ≡ false) where
  open-Reaches :
      is_open_status c.store.snapshot.status ≡ true
      → Reaches hash expires_at (change_credentials hash expires_at true true c)
  unfolding change_credentials
  open-Reaches o = ground (arith, set_credentials_reopens hash expires_at c v o differ)

  closed-Reaches :
      c.store.snapshot.status ≡ closed
      → IsDetached c.connection
      → Reaches hash expires_at (change_credentials hash expires_at true true c)
  unfolding change_credentials set_credentials connect open_stream stream_url refresh do_refresh
  closed-Reaches e d = ground arith

-- With new credentials on a client that is not idle, also on one that has given up: one stream is
-- open, whose URL carries them, no timer waits, and the client connects. The client meets the
-- invariant, the credentials differ from its own, and a stream can be created.
pub credentials_reach_stream :
    (hash : String) (expires_at : Option ℕ) (c : Client)
    → ConnectionInv c
    → c.store.snapshot.status ≢ idle
    → (same_text (some hash) c.config.subscriber_hash
        && same_number expires_at c.config.subscriber_hash_expires_at)
      ≡ false
    → Reaches hash expires_at (change_credentials hash expires_at true true c)
credentials_reach_stream hash expires_at c v n s =
    elim (Bool-cases (is_open_status c.store.snapshot.status)) [
      | inl o ↦ open-Reaches hash expires_at c v s o
      | inr o ↦
          closed-Reaches hash expires_at c v s (closed_of_not_open c.store.snapshot.status o n)
            (IsDetached-of_not_open c v o)
    ]
