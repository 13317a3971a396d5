-- ===== src/Prices/Reads.antt =====
-- GET /price after POST /price.
use obsidio.Prelude.Text.{equal, equal_self}
use obsidio.Prelude.{ℕ, ◌≡◌, refl, Bool-cases, inl, inr, false, arith}
use obsidio.Prelude.Env.{Bytes}
use obsidio.Prices.{Codec, Process, Disk, accept_price, handle_price_get, append_wal, store_price}

differ : ◌≡◌ {A = ℕ} 500 200 → ⊥
differ h = omega arith

module _ (J : Codec) where
  open J use {Price}

  -- If an accepted POST was answered 200, a GET of its symbol is answered with the same response,
  -- and a GET of any other symbol as before it.
  accept_price-handle_price_get :
      (disk : Disk) (s : Bytes) (p : Price) (x : Process J)
      → (accept_price J disk s p x).1.code ≡ 200
      → ((handle_price_get J s (accept_price J disk s p x).0).1 ≡ (accept_price J disk s p x).1)
        × ((t : Bytes)
            → equal s t ≡ false
            → (handle_price_get J t (accept_price J disk s p x).0).1 ≡ (handle_price_get J t x).1)
  unfolding accept_price handle_price_get store_price
  accept_price-handle_price_get disk s p x ok = elim (Bool-cases (append_wal J disk s p x.wal).1) [
    | inl durable ↦ rw (durable, equal_self s) (refl, λ t other. rw other refl)
    | inr failed ↦ let code : ◌≡◌ {A = ℕ} 500 200 = rw failed at ok in absurd (differ code)
  ]
