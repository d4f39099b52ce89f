-- ===== src/LockFiles/Exclusive.antt =====
-- No lock file has two owners.
use libsarus.Base.{
  ℕ, Text, Bool, true, false, ◌==◌, ==_iff, Option, none, some, Option-cases, Bool-cases, inl, inr,
  ◌≡◌, ◌≢◌, ◌⊎◌, refl, sym, ap, ◌∙◌,
}
use libsarus.Error.{Result, ok, throws, Exception}
use libsarus.System.Monad.{◌>>=◌}
use libsarus.LockFiles.Attempts.{IsNew-Grows, acquires, is_taken, leaks, attempt-Ends}
use libsarus.Error.Trace.{Result-cases}
use libsarus.LockFiles.{
  Files, IsFiles, World, set_files, set_member, remove_own, attempt, move_construct, move_assign,
  destroy,
}
use libsarus.LockFiles.Steps.{
  Step, attempts, move_constructs, move_assigns, destroys, others, Reaches, done, next,
}

some-injective {ℓ} : {A : Type ℓ} {a b : A} → some a ≡ some b → a ≡ b
some-injective h = cc

module _ (F : Files) where
  -- Each owned file exists, and two owners of a file are one object.
  pub record IsExclusive (w : World F) : Type 0 where
    pub owned_exists : (i : ℕ) (p : Text) → w.members i ≡ some p → F.exists w.files p ≡ true
    pub one_owner : (i j : ℕ) (p : Text) → w.members i ≡ some p → w.members j ≡ some p → i ≡ j

  -- What the objects besides `i` own is still there.
  abbrev KeepsOthers : World F → ℕ → F.State → Type 0
  KeepsOthers w i s = (j : ℕ) (q : Text) → w.members j ≡ some q → j ≢ i → F.exists s q ≡ true

  -- A member after it was set.
  set_member-cases :
      (i j : ℕ) (m : Option Text) (w : World F) (q : Text)
      → (set_member F i m w).members j ≡ some q
      → ((j ≡ i) × (m ≡ some q)) ⊎ ((j ≢ i) × (w.members j ≡ some q))
  set_member-cases i j m w q h = elim (Bool-cases (j == i)) [
    | inl e ↦ inl ((==_iff j i).0 e, rw e at h)
    | inr e ↦ inr ((λ is. cc (e, (==_iff j i).1 is)), rw e at h)
  ]

  IsExclusive-kept :
      (w : World F) (s : F.State)
      → IsExclusive w
      → ((p : Text) → F.exists w.files p ≡ true → F.exists s p ≡ true)
      → IsExclusive (set_files F s w)
  IsExclusive-kept w s h keeps = record {
    owned_exists = λ i p own. keeps p (h.owned_exists i p own);
    one_owner = h.one_owner;
  }

  unowned :
      (w : World F) (p : Text)
      → IsExclusive w
      → F.exists w.files p ≡ false
      → (j : ℕ) (q : Text) → w.members j ≡ some q
      → q ≢ p
  unowned w p h fresh j q old e = cc (h.owned_exists j q old, ap (F.exists w.files) e, fresh)

  IsExclusive-acquired :
      (w : World F) (s : F.State) (i : ℕ) (p : Text)
      → IsExclusive w
      → F.exists w.files p ≡ false
      → F.exists s p ≡ true
      → ((q : Text) → q ≢ p → F.exists s q ≡ F.exists w.files q)
      → IsExclusive (set_member F i (some p) (set_files F s w))
  IsExclusive-acquired w s i p h fresh made same = record {
    owned_exists = λ j q own. elim (set_member-cases i j (some p) (set_files F s w) q own) [
      | inl (_, e) ↦ ap (F.exists s) (sym (some-injective e)) ∙ made
      | inr (_, old) ↦ same q (unowned w p h fresh j q old) ∙ h.owned_exists j q old
    ];
    one_owner = λ j k q own own'. elim (set_member-cases i j (some p) (set_files F s w) q own) [
      | inl (is, e) ↦ elim (set_member-cases i k (some p) (set_files F s w) q own') [
        | inl (is', _) ↦ is ∙ sym is'
        | inr (_, old) ↦ absurd (unowned w p h fresh k q old (sym (some-injective e)))
      ]
      | inr (_, old) ↦ elim (set_member-cases i k (some p) (set_files F s w) q own') [
        | inl (_, e) ↦ absurd (unowned w p h fresh j q old (sym (some-injective e)))
        | inr (_, old') ↦ h.one_owner j k q old old'
      ]
    ];
  }

  moved-cases :
      (w : World F) (s : F.State) (i rhs : ℕ) (p : Text) (j : ℕ) (q : Text)
      → (set_member F rhs none (set_member F i (some p) (set_files F s w))).members j ≡ some q
      → ((j ≢ rhs) × (j ≡ i) × (some p ≡ some q)) ⊎ ((j ≢ rhs) × (j ≢ i) × (w.members j ≡ some q))
  moved-cases w s i rhs p j q own =
      elim (set_member-cases rhs j none (set_member F i (some p) (set_files F s w)) q own) [
        | inl (_, e) ↦ cc e
        | inr (apart, own') ↦ elim (set_member-cases i j (some p) (set_files F s w) q own') [
          | inl (is, e) ↦ inl (apart, is, e)
          | inr (other, old) ↦ inr (apart, other, old)
        ]
      ]

  IsExclusive-moved :
      (w : World F) (s : F.State) (i rhs : ℕ) (p : Text)
      → IsExclusive w
      → w.members rhs ≡ some p
      → KeepsOthers w i s
      → IsExclusive (set_member F rhs none (set_member F i (some p) (set_files F s w)))
  IsExclusive-moved w s i rhs p h source keeps = record {
    owned_exists = λ j q own. elim (moved-cases w s i rhs p j q own) [
      | inl (here, same, e) ↦ keeps rhs q (source ∙ e) (λ is. here (same ∙ sym is))
      | inr (_, other, old) ↦ keeps j q old other
    ];
    one_owner = λ j k q own own'. elim (moved-cases w s i rhs p j q own) [
      | inl (_, is, e) ↦ elim (moved-cases w s i rhs p k q own') [
        | inl (_, is', _) ↦ is ∙ sym is'
        | inr (apart, _, old) ↦ absurd (apart (h.one_owner k rhs q old (source ∙ e)))
      ]
      | inr (apart, _, old) ↦ elim (moved-cases w s i rhs p k q own') [
        | inl (_, _, e) ↦ absurd (apart (h.one_owner j rhs q old (source ∙ e)))
        | inr (_, _, old') ↦ h.one_owner j k q old old'
      ]
    ];
  }

  IsExclusive-released :
      (w : World F) (s : F.State) (i : ℕ)
      → IsExclusive w
      → KeepsOthers w i s
      → IsExclusive (set_member F i none (set_files F s w))
  IsExclusive-released w s i h keeps = record {
    owned_exists = λ j q own. elim (set_member-cases i j none (set_files F s w) q own) [
      | inl (_, e) ↦ cc e
      | inr (other, old) ↦ keeps j q old other
    ];
    one_owner = λ j k q own own'. elim (set_member-cases i j none (set_files F s w) q own) [
      | inl (_, e) ↦ cc e
      | inr (_, old) ↦ elim (set_member-cases i k none (set_files F s w) q own') [
        | inl (_, e) ↦ cc e
        | inr (_, old') ↦ h.one_owner j k q old old'
      ]
    ];
  }

  module _ (laws : IsFiles F) where
    attempt-IsExclusive :
        (w w' : World F) (i : ℕ) (p : Text) (r : Result Bool)
        → attempt F i p w ≡ some (r, w')
        → IsExclusive w
        → IsExclusive w'
    attempt-IsExclusive w w' i p r h x = elim (attempt-Ends F laws i p w) [
      | acquires s e (fresh, made, same) ↦
          let is : w' ≡ set_member F i (some p) (set_files F s w) = cc (e, h) in
          rw is (IsExclusive-acquired w s i p x fresh made same)
      | is_taken s e grows ↦
          let is : w' ≡ set_files F s w = cc (e, h) in rw is (IsExclusive-kept w s x grows)
      | leaks s e new ↦
          let is : w' ≡ set_files F s w = cc (e, h) in
          rw is (IsExclusive-kept w s x (IsNew-Grows F p w.files s new))
    ]

    move_construct-IsExclusive :
        (w w' : World F) (i rhs : ℕ) (r : Result (Unit {0}))
        → w.members i ≡ none
        → move_construct F i rhs w ≡ some (r, w')
        → IsExclusive w
        → IsExclusive w'
    unfolding move_construct
    move_construct-IsExclusive w w' i rhs r empty h x = elim (Option-cases (w.members rhs)) [
      | inl e ↦ cc (rw (e, move_construct) at h)
      | inr (p, e) ↦
          let is : w' ≡ set_member F rhs none (set_member F i (some p) w) =
            cc (rw (e, move_construct) at h) in
          rw is (IsExclusive-moved w w.files i rhs p x e (λ j q own other. x.owned_exists j q own))
    ]

    remove_none : (w : World F) → remove_own F none w ≡ some (ok tt, w)
    unfolding remove_own
    remove_none w = refl

    -- The file of an object is removed, or nothing changes.
    remove_own-cases :
        (w : World F) (i : ℕ) (q : Text)
        → IsExclusive w
        → w.members i ≡ some q
        → (s : F.State) × (((remove_own F (some q) w ≡ some (ok tt, set_files F s w))
              × KeepsOthers w i s)
            ⊎ ((e : Exception) × (remove_own F (some q) w ≡ some (throws e, set_files F s w))
                × ((p : Text) → F.exists w.files p ≡ true → F.exists s p ≡ true)))
    unfolding remove_own
    remove_own-cases w i q x own =
        let s : F.State = (F.remove q w.files).1 in
        elim (Result-cases (F.remove q w.files).0) [
          | inl (b, e) ↦ (
            s,
            inl (
              rw (e, remove_own) refl,
              λ j p own' other.
                  laws.remove_others q p w.files
                    (λ is. other (x.one_owner j i q (own' ∙ ap some is) own))
                  ∙ x.owned_exists j p own',
            ),
          )
          | inr (e, failed) ↦ (
            s,
            inr (
              e,
              rw (failed, remove_own) refl,
              λ p there. laws.remove_failed q p w.files e failed ∙ there,
            ),
          )
        ]

    destroy-IsExclusive :
        (w w' : World F) (i : ℕ) (r : Result (Unit {0}))
        → destroy F i w ≡ some (r, w')
        → IsExclusive w
        → IsExclusive w'
    unfolding destroy
    destroy-IsExclusive w w' i r h x = elim (Option-cases (w.members i)) [
      | inl e ↦
          let is : w' ≡ set_member F i none w = cc (rw (e, remove_none w, destroy, ◌>>=◌) at h) in
          rw is (IsExclusive-released w w.files i x (λ j q own other. x.owned_exists j q own))
      | inr (q, e) ↦
          let (s, ends) = remove_own-cases w i q x e in
          elim ends [
            | inl (runs, keeps) ↦
                let is : w' ≡ set_member F i none (set_files F s w) =
                  cc (rw (e, runs, destroy, ◌>>=◌) at h) in
                rw is (IsExclusive-released w s i x keeps)
            | inr (_, runs, same) ↦
                let is : w' ≡ set_files F s w = cc (rw (e, runs, destroy, ◌>>=◌) at h) in
                rw is (IsExclusive-kept w s x same)
          ]
    ]

    move_assign-IsExclusive :
        (w w' : World F) (i rhs : ℕ) (r : Result (Unit {0}))
        → move_assign F i rhs w ≡ some (r, w')
        → IsExclusive w
        → IsExclusive w'
    unfolding move_assign
    move_assign-IsExclusive w w' i rhs r h x = elim (Option-cases (w.members rhs)) [
      | inl e ↦ cc (rw (e, move_assign) at h)
      | inr (p, e) ↦ elim (Option-cases (w.members i)) [
        | inl empty ↦
            let is : w' ≡ set_member F rhs none (set_member F i (some p) w) =
              cc (rw (e, empty, remove_none w, move_assign, ◌>>=◌) at h) in
            rw is
              (IsExclusive-moved w w.files i rhs p x e (λ j q own other. x.owned_exists j q own))
        | inr (q, own) ↦
            let (s, ends) = remove_own-cases w i q x own in
            elim ends [
              | inl (runs, keeps) ↦
                  let is : w' ≡ set_member F rhs none (set_member F i (some p) (set_files F s w)) =
                    cc (rw (e, own, runs, move_assign, ◌>>=◌) at h) in
                  rw is (IsExclusive-moved w s i rhs p x e keeps)
              | inr (_, runs, same) ↦
                  let is : w' ≡ set_files F s w = cc (rw (e, own, runs, move_assign, ◌>>=◌) at h) in
                  rw is (IsExclusive-kept w s x same)
            ]
      ]
    ]

    Step-IsExclusive : {w w' : World F} → Step F w w' → IsExclusive w → IsExclusive w'
    Step-IsExclusive {w} {w'} (attempts i p r empty h) x = attempt-IsExclusive w w' i p r h x
    Step-IsExclusive {w} {w'} (move_constructs i rhs r empty h) x =
        move_construct-IsExclusive w w' i rhs r empty h x
    Step-IsExclusive {w} {w'} (move_assigns i rhs r h) x = move_assign-IsExclusive w w' i rhs r h x
    Step-IsExclusive {w} {w'} (destroys i r h) x = destroy-IsExclusive w w' i r h x
    Step-IsExclusive {w} (others s grows) x = IsExclusive-kept w s x grows

    -- Whatever attempts, moves, assignments and destructors of lock file objects run in whatever
    -- order, returning or throwing, and whatever files other programs add: if each owned lock
    -- file exists and none has two owners, this still holds afterwards.
    pub Reaches-IsExclusive : {w w' : World F} → Reaches F w w' → IsExclusive w → IsExclusive w'
    Reaches-IsExclusive done x = x
    Reaches-IsExclusive (next s h) x = Reaches-IsExclusive h (Step-IsExclusive s x)
