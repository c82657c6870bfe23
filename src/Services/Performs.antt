-- ===== src/Services/Performs.antt =====
-- Rules for `Performs`, one for each way to build an action.
use go_video.Prelude.{
  ◌≡◌, refl, ◌∙◌, inl, inr, Result-cases, Bool, true, false, Error, Result, Act, pure, raise, ◌>>=◌,
  if◌then◌else◌,
}
use go_video.Services.Keeps.{Keeps}
use go_video.Services.Sql.{Performs, answered, refused}

module _ {W S : Type 0} (view : W → S) where
  -- The call answers or fails and nothing that can be seen changes.
  abbrev pub Quiet : {A : Type 0} → Act W A → Type 0
  Quiet m = (w : W) → Performs view w (m w) (λ _ s. s ≡ view w)

module _ {W S : Type 0} {view : W → S} where
  pub performs_raise :
      {A : Type 0} (Post : A → S → Type 0) (e : Error) (w : W) → Performs view w (raise e w) Post
  unfolding ◌>>=◌
  performs_raise Post e w = refused e refl refl

  pub performs_pure :
      {A : Type 0} (Post : A → S → Type 0) (a : A) (w : W)
      → Post a (view w)
      → Performs view w (pure a w) Post
  unfolding ◌>>=◌
  performs_pure Post a w h = answered a refl h

  pub performs_if :
      {A : Type 0} (Post : A → S → Type 0) (b : Bool) (m n : Act W A) (w : W)
      → Performs view w (m w) Post
      → Performs view w (n w) Post
      → Performs view w ((if b then m else n) w) Post
  performs_if Post true m n w hm hn = hm
  performs_if Post false m n w hm hn = hn

  pub performs_weaken :
      {A : Type 0} (Pre Post : A → S → Type 0) (w : W) (out : Result A × W)
      → ((a : A) (s : S) → Pre a s → Post a s)
      → Performs view w out Pre
      → Performs view w out Post
  performs_weaken Pre Post w out h (answered a e x) = answered a e (h a (view out.1) x)
  performs_weaken Pre Post w out h (refused e x s) = refused e x s

  -- A quiet call first.
  pub performs_after :
      {A B : Type 0} (Post : B → S → Type 0) (m : Act W A) (f : A → Act W B) (w : W)
      → Performs view w (m w) (λ _ s. s ≡ view w)
      → ((a : A) (w' : W) → view w' ≡ view w → Performs view w' (f a w') Post)
      → Performs view w ((m >>= f) w) Post
  unfolding ◌>>=◌
  performs_after Post m f w (answered a e same) h = elim (h a (m w).1 same) [
    | answered b e' x ↦ rw e (answered b e' x)
    | refused z e' s ↦ rw e (refused z e' (s ∙ same))
  ]
  performs_after Post m f w (refused z e same) h = rw e (refused z refl same)

  -- A call that changes nothing, and what its answer is known to be, first.
  pub performs_bind :
      {A B : Type 0} (Known : A → Type 0) (Post : B → S → Type 0) (m : Act W A) (f : A → Act W B)
      (w : W)
      → Performs view w (m w) (λ a s. Known a × (s ≡ view w))
      → ((a : A) (w' : W) → Known a → view w' ≡ view w → Performs view w' (f a w') Post)
      → Performs view w ((m >>= f) w) Post
  unfolding ◌>>=◌
  performs_bind Known Post m f w (answered a e (known, same)) h = elim (h a (m w).1 known same) [
    | answered b e' x ↦ rw e (answered b e' x)
    | refused z e' s ↦ rw e (refused z e' (s ∙ same))
  ]
  performs_bind Known Post m f w (refused z e same) h = rw e (refused z refl same)

  -- A call that keeps everything changes nothing.
  pub quiet_of_Keeps :
      {A : Type 0} (m : Act W A) (w : W)
      → Keeps view (λ s. s ≡ view w) m
      → Performs view w (m w) (λ _ s. s ≡ view w)
  quiet_of_Keeps m w k = elim (Result-cases (m w).0) [
    | inl (a, e) ↦ answered a e (k.at w refl)
    | inr (z, e) ↦ refused z e (k.at w refl)
  ]
