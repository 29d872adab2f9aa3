-- ===== src/Queries/Pages/Kept.antt =====
-- Lists of events that are kept, taken and ordered.
use frontdoor.Prelude.{
  ℕ, zero, suc, ◌<◌, ◌≤◌, Bool, true, ◌&&◌, some, List, [], ◌∷◌, ◌++◌, map, take, keep, all, All,
  All-map, length, ◌≡◌, refl, ap, arith, Bool-cases, inl, inr,
}
use frontdoor.Queries.{last_of}
use frontdoor.Audit.{AuditEvent}
use frontdoor.Queries.Pages.{IsNewestFirst}

module _ {A B : Type 0} where
  pub keep-map :
      (p : B → Bool) (f : A → B) (xs : List A) → keep p (map f xs) ≡ map f (keep (λ a. p (f a)) xs)
  keep-map p f [] = refl
  keep-map p f (x ∷ xs) = elim (Bool-cases (p (f x))) [
    | inl passes ↦ rw (passes, keep-map p f xs) refl
    | inr fails ↦ rw (fails, keep-map p f xs) refl
  ]

  pub take-map : (n : ℕ) (f : A → B) (xs : List A) → take n (map f xs) ≡ map f (take n xs)
  take-map zero f xs = refl
  take-map (suc n) f [] = refl
  take-map (suc n) f (x ∷ xs) = ap (◌∷◌ (f x)) (take-map n f xs)

module _ {A : Type 0} where
  pub keep-keep : (p q : A → Bool) (xs : List A) → keep (λ a. p a && q a) xs ≡ keep q (keep p xs)
  keep-keep p q [] = refl
  keep-keep p q (x ∷ xs) = elim (Bool-cases (p x)) [
    | inl passes ↦ rw (passes, keep-keep p q xs) refl
    | inr fails ↦ rw (fails, keep-keep p q xs) refl
  ]

  pub all-append : (p : A → Bool) (xs ys : List A) → all p (xs ++ ys) ≡ (all p xs && all p ys)
  all-append p [] ys = refl
  all-append p (x ∷ xs) ys = ground (arith, all-append p xs ys)

  pub keep-cong : (p q : A → Bool) (xs : List A) → ((a : A) → p a ≡ q a) → keep p xs ≡ keep q xs
  keep-cong p q [] same = refl
  keep-cong p q (x ∷ xs) same = ground (arith, same x, keep-cong p q xs same)

  pub All-keep_of {κ} : (P : A → Type κ) (p : A → Bool) (xs : List A) → All P xs → All P (keep p xs)
  All-keep_of P p [] h = tt
  All-keep_of P p (x ∷ xs) h = elim (Bool-cases (p x)) [
    | inl passes ↦ rw passes (h.0, All-keep_of P p xs h.1)
    | inr fails ↦ rw fails (All-keep_of P p xs h.1)
  ]

  pub All-take {κ} : (P : A → Type κ) (n : ℕ) (xs : List A) → All P xs → All P (take n xs)
  All-take P zero xs h = tt
  All-take P (suc n) [] h = tt
  All-take P (suc n) (x ∷ xs) h = (h.0, All-take P n xs h.1)

  pub keep-All : (p : A → Bool) (xs : List A) → All (λ a. p a ≡ true) xs → keep p xs ≡ xs
  keep-All p [] h = refl
  keep-All p (x ∷ xs) h = rw (h.0, keep-All p xs h.1) refl

  pub length-keep_short : (p : A → Bool) (xs : List A) → length (keep p xs) ≤ length xs
  length-keep_short p [] = omega arith
  length-keep_short p (x ∷ xs) = ground (arith, length-keep_short p xs)

  pub keep-true : (xs : List A) → keep (λ a. true) xs ≡ xs
  keep-true [] = refl
  keep-true (x ∷ xs) = ap (◌∷◌ x) (keep-true xs)

  pub take-long : (n : ℕ) (xs : List A) → length xs ≤ n → take n xs ≡ xs
  take-long zero [] h = refl
  take-long zero (x ∷ xs) h = absurd (omega arith)
  take-long (suc n) [] h = refl
  take-long (suc n) (x ∷ xs) h = ap (◌∷◌ x) (take-long n xs (omega arith))

  pub take-take : (n m : ℕ) (xs : List A) → n ≤ m → take n (take m xs) ≡ take n xs
  take-take zero m xs h = refl
  take-take (suc n) zero xs h = absurd (omega arith)
  take-take (suc n) (suc m) [] h = refl
  take-take (suc n) (suc m) (x ∷ xs) h = ap (◌∷◌ x) (take-take n m xs (omega arith))

  pub length-take : (n : ℕ) (xs : List A) → n ≤ length xs → length (take n xs) ≡ n
  length-take zero xs h = refl
  length-take (suc n) [] h = absurd (omega arith)
  length-take (suc n) (x ∷ xs) h = ap suc (length-take n xs (omega arith))

  pub last_of-append : (xs : List A) (x : A) → last_of (xs ++ (x ∷ [])) ≡ some x
  last_of-append [] x = refl
  last_of-append (y ∷ []) x = refl
  last_of-append (y ∷ z ∷ xs) x = last_of-append (z ∷ xs) x

  pub All-middle {κ} :
      (P : A → Type κ) (pre : List A) (x : A) (post : List A) → All P (pre ++ (x ∷ post)) → P x
  All-middle P [] x post h = h.0
  All-middle P (y ∷ pre) x post h = All-middle P pre x post h.1

  -- The item that ends a page of `suc k` items, when there are so many.
  pub record Cut (k : ℕ) (xs : List A) : Type 0 where
    pub before : List A
    pub item : A
    pub rest : List A
    pub whole : xs ≡ before ++ (item ∷ rest)
    pub page : take (suc k) xs ≡ before ++ (item ∷ [])
    pub size : length before ≡ k

  pub cut : (k : ℕ) (xs : List A) → k < length xs → Cut k xs
  cut k [] h = absurd (omega arith)
  cut zero (x ∷ xs) h = record {
    before = [];
    item = x;
    rest = xs;
    whole = refl;
    page = refl;
    size = refl;
  }
  cut (suc k) (x ∷ xs) h =
      let c = cut k xs (omega arith) in
      record {
        before = x ∷ c.before;
        item = c.item;
        rest = c.rest;
        whole = ap (◌∷◌ x) c.whole;
        page = ap (◌∷◌ x) c.page;
        size = ap suc c.size;
      }

module _ (after : AuditEvent → AuditEvent → Bool) where
  pub keep-IsNewestFirst :
      (p : AuditEvent → Bool) (es : List AuditEvent)
      → IsNewestFirst after es
      → IsNewestFirst after (keep p es)
  keep-IsNewestFirst p [] h = tt
  keep-IsNewestFirst p (e ∷ es) h = elim (Bool-cases (p e)) [
    | inl passes ↦ rw passes (h.0, All-keep_of _ p es h.1, keep-IsNewestFirst p es h.2)
    | inr fails ↦ rw fails (keep-IsNewestFirst p es h.2)
  ]

  -- What follows an event of an ordered list is the rest of the list.
  pub keep-follows :
      (pre : List AuditEvent) (x : AuditEvent) (post : List AuditEvent)
      → IsNewestFirst after (pre ++ (x ∷ post))
      → keep (after x) (pre ++ (x ∷ post)) ≡ post
  keep-follows [] x post h = rw h.0 (keep-All (after x) post (All-map (λ d both. both.0) post h.1))
  keep-follows (e ∷ pre) x post h = rw (All-middle _ pre x post h.1).1 (keep-follows pre x post h.2)
