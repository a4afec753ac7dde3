-- ===== src/Auth/Chain.antt =====
-- The chain lets a request pass by its first authenticator that does.
use cc_relay.Base.{
  ◌≡◌, refl, ap, sym, ◌∙◌, subst, true, false, not, List, [], ◌∷◌, ◌++◌, foldl, Lo, All, Bool-cases,
  inl, inr, if◌then◌else◌,
}
use cc_relay.Auth.{AuthResult, invalid, type_none, try_next, normalize, validate_chain}

module _ {Request : Type 0} (request : Request) where
  abbrev pub Rejects : (Request → AuthResult) → Type 0
  Rejects a = (a request).valid ≡ false

  -- How a chain decides.
  pub data Decides (xs : List (Request → AuthResult)) (r : AuthResult) : Type 0 where
    nothing_configured :
        xs ≡ [] → r ≡ invalid type_none "no authentication configured" → Decides xs r
    accepted :
        (before after : List (Request → AuthResult)) (a : Request → AuthResult)
        → xs ≡ before ++ (a ∷ after)
        → All Rejects before
        → (a request).valid ≡ true
        → r ≡ a request
        → Decides xs r
    rejected :
        (before : List (Request → AuthResult)) (a : Request → AuthResult)
        → xs ≡ before ++ (a ∷ [])
        → All Rejects xs
        → r ≡ invalid type_none (a request).error
        → Decides xs r

  -- A valid result goes through.
  fold-valid :
      (xs : List (Request → AuthResult)) (acc : AuthResult)
      → acc.valid ≡ true
      → foldl (try_next request) acc xs ≡ acc
  unfolding try_next
  fold-valid [] acc up = refl
  fold-valid (a ∷ xs) acc up =
      ap (λ b. foldl (try_next request) (if b then acc else a request) xs) up ∙ fold-valid xs acc up

  fold-next :
      (a : Request → AuthResult) (xs : List (Request → AuthResult)) (acc : AuthResult)
      → acc.valid ≡ false
      → foldl (try_next request) acc (a ∷ xs) ≡ foldl (try_next request) (a request) xs
  unfolding try_next
  fold-next a xs acc down =
      ap (λ b. foldl (try_next request) (if b then acc else a request) xs) down

  normalize-valid : (r : AuthResult) → r.valid ≡ true → normalize r ≡ r
  unfolding normalize
  normalize-valid r up = ap (λ b. if not b then invalid type_none r.error else r) up

  normalize-invalid : (r : AuthResult) → r.valid ≡ false → normalize r ≡ invalid type_none r.error
  unfolding normalize
  normalize-invalid r down = ap (λ b. if not b then invalid type_none r.error else r) down

  Decides-cons :
      (a b : Request → AuthResult) (xs : List (Request → AuthResult)) (r : AuthResult)
      → Rejects a
      → Decides (b ∷ xs) r
      → Decides (a ∷ b ∷ xs) r
  Decides-cons a b xs r down (nothing_configured nil e) = absurd (cc)
  Decides-cons a b xs r down (accepted before after c split all up e) =
      accepted (a ∷ before) after c (ap (◌∷◌ a) split) (down, all) up e
  Decides-cons a b xs r down (rejected before c split all e) =
      rejected (a ∷ before) c (ap (◌∷◌ a) split) (down, all) e

  fold-Decides :
      (a : Request → AuthResult) (xs : List (Request → AuthResult)) (acc : AuthResult)
      → acc.valid ≡ false
      → Decides (a ∷ xs) (normalize (foldl (try_next request) acc (a ∷ xs)))
  fold-Decides a [] acc down = elim (Bool-cases (a request).valid) [
    | inl up ↦
        accepted [] [] a refl tt up
          (ap (normalize) (fold-next a [] acc down) ∙ normalize-valid (a request) up)
    | inr rejects ↦
        rejected [] a refl (rejects, tt)
          (ap (normalize) (fold-next a [] acc down) ∙ normalize-invalid (a request) rejects)
  ]
  fold-Decides a (b ∷ bs) acc down = elim (Bool-cases (a request).valid) [
    | inl up ↦ accepted [] (b ∷ bs) a refl tt up (
        ap (normalize) (fold-next a (b ∷ bs) acc down ∙ fold-valid (b ∷ bs) (a request) up)
        ∙ normalize-valid (a request) up)
    | inr rejects ↦
        subst (λ r. Decides (a ∷ b ∷ bs) (normalize r)) (sym (fold-next a (b ∷ bs) acc down))
          (Decides-cons a b bs _ rejects (fold-Decides b bs (a request) rejects))
  ]

  -- For every request, the chain of authenticators without an authenticator rejects; otherwise
  -- it gives the result of the first authenticator that accepts the request, and when all reject
  -- it, a rejection with the error of the last one and no type.
  pub validate_chain-Decides :
      (lo : Lo) (xs : List (Request → AuthResult)) → Decides xs (validate_chain lo xs request)
  unfolding validate_chain
  validate_chain-Decides lo [] = nothing_configured refl refl
  validate_chain-Decides lo (a ∷ xs) =
      subst (λ r. Decides (a ∷ xs) (normalize r))
        (sym (lo.reduce_lem (try_next request) (invalid type_none "") (a ∷ xs)))
        (fold-Decides a xs (invalid type_none "") refl)
