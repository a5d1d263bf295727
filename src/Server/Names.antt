-- ===== src/Server/Names.antt =====
-- The names in use, `usernames_` of src/exchange_server.cpp, against who is logged in under which.
use market_networks.Base.{
  Bool-cases, List, Option, Text, ap, arith, eq_of_text_eq, false, if◌then◌else◌, inl, inr, none,
  some, subst, sym, text_eq, text_eq_iff, true, ℕ, ◌==◌, ◌∙◌, ◌≡◌, ◌≢◌, ◌⊎◌,
}
use market_networks.Server.State.{has_text, erase_text, insert_text}
use market_networks.Server.Sets.{has_text-erase_text, has_text-insert_text}

-- `name k` is the name under which client k is logged in: the names in use are exactly these, and no
-- two clients have the same.
pub record IsNamed (usernames : List Text) (name : ℕ → Option Text) : Type 0 where
  pub used : (k : ℕ) (u : Text) → name k ≡ some u → has_text u usernames ≡ true
  pub held : (u : Text) → has_text u usernames ≡ true → (k : ℕ) × (name k ≡ some u)
  pub unique : (j k : ℕ) (u : Text) → name j ≡ some u → name k ≡ some u → j ≡ k

pub IsNamed-same :
    (us : List Text) (n m : ℕ → Option Text) → IsNamed us n → ((k : ℕ) → m k ≡ n k) → IsNamed us m
IsNamed-same us n m v e = record {
  used = λ k u h. v.used k u (sym (e k) ∙ h);
  held = λ u h. let (k, f) = v.held u h in (k, e k ∙ f);
  unique = λ j k u f g. v.unique j k u (sym (e j) ∙ f) (sym (e k) ∙ g);
}

module _ (us : List Text) (n m : ℕ → Option Text) (fd : ℕ) (v : IsNamed us n) where
  others :
      (k : ℕ) (u : Text)
      → (m k ≡ (if fd == k then none else n k))
      → m k ≡ some u
      → (n k ≡ some u) × (fd ≢ k)
  others k u e f = (ground arith, λ h. ground arith)

  -- A client that is not logged in leaves.
  pub IsNamed-leave_unnamed :
      n fd ≡ none → ((k : ℕ) → m k ≡ (if fd == k then none else n k)) → IsNamed us m
  IsNamed-leave_unnamed e f = IsNamed-same us n m v (λ k. same k (f k))
    where
      same : (k : ℕ) → m k ≡ (if fd == k then none else n k) → m k ≡ n k
      same k g = elim (Bool-cases (fd == k)) [
        | inl h ↦ let p : fd ≡ k = ground arith in ground (arith, subst (λ j. n j ≡ none) p e)
        | inr h ↦ ground arith
      ]

  -- A client leaves, and its name with it.
  pub IsNamed-leave :
      (u : Text)
      → n fd ≡ some u
      → ((k : ℕ) → m k ≡ (if fd == k then none else n k))
      → IsNamed (erase_text u us) m
  IsNamed-leave u e f = record {
    used = λ k w h.
        let (a, other) = others k w (f k) h in
        elim (Bool-cases (text_eq w u)) [
          | inl t ↦ absurd (other (v.unique fd k u e (a ∙ ap some (eq_of_text_eq w u t))))
          | inr t ↦ rw (has_text-erase_text w u us, t) (v.used k w a)
        ];
    held = λ w h. elim (Bool-cases (text_eq w u)) [
      | inl t ↦ absurd (ground (arith, has_text-erase_text w u us))
      | inr t ↦
          let (k, g) = v.held w (ground (arith, has_text-erase_text w u us)) in (k, kept k w g t)
    ];
    unique = λ j k w g h. v.unique j k w (others j w (f j) g).0 (others k w (f k) h).0;
  }
    where
      kept : (k : ℕ) (w : Text) → n k ≡ some w → text_eq w u ≡ false → m k ≡ some w
      kept k w g t = elim (Bool-cases (fd == k)) [
        | inl h ↦
            let p : fd ≡ k = ground arith in
            let q : some u ≡ some w = sym e ∙ ap n p ∙ g in
            absurd (ground (arith, q, text_eq_iff w u))
        | inr h ↦ ground (arith, f k)
      ]

  -- A client takes a name that is not in use.
  pub IsNamed-enter :
      (u : Text)
      → n fd ≡ none
      → has_text u us ≡ false
      → ((k : ℕ) → m k ≡ (if fd == k then some u else n k))
      → IsNamed (insert_text u us) m
  IsNamed-enter u e t f = record {
    used = λ k w h. rw (has_text-insert_text w u us) (elim (name_cases k w h) [
      | inl (p, q) ↦ ground (arith, text_eq_iff w u)
      | inr g ↦ ground (arith, v.used k w g)
    ]);
    held = λ w h. elim (Bool-cases (text_eq w u)) [
      | inl q ↦ (fd, rw (f fd) (ground (arith, text_eq_iff w u)))
      | inr q ↦
          let (k, g) = v.held w (ground (arith, has_text-insert_text w u us)) in (k, entered k w g)
    ];
    unique = λ j k w g h. elim (name_cases j w g) [
      | inl (p, q) ↦ elim (name_cases k w h) [
        | inl (p', q') ↦ p ∙ sym p'
        | inr h' ↦ absurd (free k (h' ∙ ap some q))
      ]
      | inr g' ↦ elim (name_cases k w h) [
        | inl (p', q') ↦ absurd (free j (g' ∙ ap some q'))
        | inr h' ↦ v.unique j k w g' h'
      ]
    ];
  }
    where
      free : (k : ℕ) → n k ≢ some u
      free k g = ground (arith, v.used k u g)

      name_cases : (k : ℕ) (w : Text) → m k ≡ some w → (k ≡ fd) × (w ≡ u) ⊎ (n k ≡ some w)
      name_cases k w h = ground (arith, f k)

      entered : (k : ℕ) (w : Text) → n k ≡ some w → m k ≡ some w
      entered k w g = elim (Bool-cases (fd == k)) [
        | inl h ↦
            let p : fd ≡ k = ground arith in
            let q : none ≡ some w = sym e ∙ ap n p ∙ g in ground arith
        | inr h ↦ ground (arith, f k)
      ]
