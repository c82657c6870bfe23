-- ===== src/Worker/Outbox/Claim.antt =====
-- Who gets to publish an outbox row.
use go_video.Prelude.{
  ℕ, ◌≡◌, ◌≢◌, Bool, true, false, ◌&&◌, inl, inr, Error, ok, Bool-cases, ◌>>=◌, arith, any, ◌==◌,
}
use go_video.Prelude.Text.{Text}
use go_video.Services.Sql.{performs_cases, update_rows, none-update_rows, Changed-zero}
use go_video.Services.Platform.{Platform, time_now}
use go_video.Entities.{OutboxMsg, pending, processing}
use go_video.Worker.Outbox.{same_status, claim}

-- The rows that a claim of `id` looks for.
abbrev pub claimable : ℕ → OutboxMsg → Bool
claimable id m = m.id == id && same_status m.status pending

abbrev pub claimed : ℕ → OutboxMsg → OutboxMsg
claimed now m = record m { status = processing; updated_at = now }

module _ (error_text : Error → Text) {W : Type 0} (p : Platform W) where
  claim_miss :
      (id : ℕ) (v : W)
      → any (claimable id) (p.view v).outbox ≡ false
      → (claim error_text p id v).0 ≢ ok true
  unfolding claim time_now ◌>>=◌
  claim_miss id v none_left again = elim (Bool-cases (id == 0)) [
    | inl z ↦ cc (rw (z, claim) at again)
    | inr nz ↦ elim (performs_cases (p.outbox.update_lem (claimable id) (claimed (p.now v)) v)) [
      | inl (n, e, post) ↦ ground (
        arith,
        Changed-zero (claimable id) (claimed (p.now v)) (p.view v).outbox n none_left post.0,
      )
      | inr (x, e, s) ↦ ground arith
    ]
  ]

  -- A claim that succeeds marks the pending rows of its id, and no other row, as being processed.
  pub claim_won :
      (id : ℕ) (w : W)
      → (claim error_text p id w).0 ≡ ok true
      → p.view (claim error_text p id w).1 ≡ record (p.view w) {
        outbox = update_rows (claimable id) (claimed (p.now w)) (p.view w).outbox;
      }
  unfolding claim time_now ◌>>=◌
  claim_won id w won =
      ground (arith, performs_cases (p.outbox.update_lem (claimable id) (claimed (p.now w)) w))

  -- Once a claim has succeeded, no other worker's claim of the same row succeeds, as long as the
  -- tables are as that claim left them.
  pub claimed_once :
      (id : ℕ) (w v : W)
      → (claim error_text p id w).0 ≡ ok true
      → p.view v ≡ p.view (claim error_text p id w).1
      → (claim error_text p id v).0 ≢ ok true
  claimed_once id w v won same = claim_miss id v (
      rw (same, claim_won id w won)
        (none-update_rows (claimable id) (claimed (p.now w)) (p.view w).outbox (λ m. ground arith)))
