-- ===== src/Synthesizer/Enumerate/Complete.antt =====
-- What the search of src/synthesizer.rs has covered when it returns: `Leaves` lists the tables that
-- it goes through, independently of budget and early exit.
pub mod Leaves
pub mod Answer
use anasemble.Prelude.{
  ℕ, zero, suc, ◌+◌, ◌≤◌, ◌≡◌, refl, sym, ap, ◌∙◌, ◌⊎◌, inl, inr, Bool, true, false, Option, none,
  some, List, [], ◌∷◌, ◌++◌, append_assoc, append-nil, arith, Result, ok, err, ◌>>=◌, >>=-eq-ok,
  Bool-cases, ltb, length, length-append, if◌then◌else◌,
}
use mathlib.Core.Path.{subst}
use anasemble.Text.{Text}
use anasemble.Model.{Error, Grammar, Transition, FragmentContent}
use anasemble.Synthesizer.{satisfies}
use anasemble.Synthesizer.Enumerate.{Search, ambiguous, row, examine, try_choices, enumerate}
use anasemble.Synthesizer.Enumerate.Complete.Leaves.{
  fits, accepted, accepted-append, spread, leaves,
}

module _ (g : Grammar) (contents : List FragmentContent) where
  -- The search from `s` to `s'` has gone through all of `ls`, or has stopped at a second solution.
  pub data Outcome (s s' : Search) (ls : List (List Transition)) : Type 0 where
    whole :
        s'.solutions ≡ s.solutions ++ accepted g contents ls
        → s'.examined ≡ s.examined + length ls
        → s'.examined ≤ g.max_candidates
        → Outcome s s' ls
    stopped :
        (rest : List (List Transition))
        → ambiguous s'.solutions ≡ true
        → s'.solutions ++ rest ≡ s.solutions ++ accepted g contents ls
        → Outcome s s' ls

  -- A search that covers `spec`, from any state with at most one solution.
  abbrev pub Covers :
      (List Transition → Search → Result Error Search)
      → (List Transition → List (List Transition))
      → Type 0
  Covers next spec =
      (a : List Transition) (s s' : Search)
      → ambiguous s.solutions ≡ false
      → s.examined ≤ g.max_candidates
      → next a s ≡ ok s'
      → Outcome s s' (spec a)

  examine-Covers : Covers (examine g contents) (λ a. a ∷ [])
  unfolding examine fits accepted
  examine-Covers a s s' h b e =
      whole (ground (arith, append-nil s.solutions)) (ground arith) (ground arith)

  and_then :
      {s t u : Search} (ls ms : List (List Transition))
      → Outcome s t ls
      → ambiguous t.solutions ≡ false
      → Outcome t u ms
      → Outcome s u (ls ++ ms)
  and_then {s} {t} {u} ls ms (whole f e b) h (whole f' e' b') =
      whole
        (f'
          ∙ (rw (f, accepted-append g contents ls ms)
              (append_assoc s.solutions (accepted g contents ls) (accepted g contents ms))))
        (rw length-append (omega arith)) b'
  and_then {s} {t} {u} ls ms (whole f e b) h (stopped rest two r) = stopped rest two (
      r
      ∙ (rw (f, accepted-append g contents ls ms)
          (append_assoc s.solutions (accepted g contents ls) (accepted g contents ms))))
  and_then ls ms (stopped rest two r) h p = absurd (cc (two, h))

  -- A search that has stopped has covered a prefix of any longer list.
  and_stop :
      {s t : Search} (ls ms : List (List Transition))
      → Outcome s t ls
      → ambiguous t.solutions ≡ true
      → Outcome s t (ls ++ ms)
  and_stop {s} {t} ls ms (whole f e b) h = stopped (accepted g contents ms) h (
      rw (f, accepted-append g contents ls ms)
        (append_assoc s.solutions (accepted g contents ls) (accepted g contents ms)))
  and_stop {s} {t} ls ms (stopped rest two r) h = stopped (rest ++ accepted g contents ms) h (
      rw
        (
          accepted-append g contents ls ms,
          ← append_assoc t.solutions rest (accepted g contents ms),
          r,
        )
        (append_assoc s.solutions (accepted g contents ls) (accepted g contents ms)))

  bound-Outcome :
      {s t : Search} (ls : List (List Transition))
      → Outcome s t ls
      → ambiguous t.solutions ≡ false
      → t.examined ≤ g.max_candidates
  bound-Outcome ls (whole f e b) h = b
  bound-Outcome ls (stopped rest two r) h = absurd (cc (two, h))

  try_choices-Covers :
      (next : List Transition → Search → Result Error Search)
      (spec : List Transition → List (List Transition))
      → Covers next spec
      → (cell : Text × Text) (choices : List (Text × Text))
      → Covers (try_choices next cell choices) (spread spec cell choices)
  unfolding try_choices spread accepted
  try_choices-Covers next spec cov cell [] a s s' h b e =
      let q : s ≡ s' = cc in
      subst (λ t. Outcome s t []) q (whole (sym (append-nil s.solutions)) (omega arith) b)
  try_choices-Covers next spec cov cell (choice ∷ choices) a s s' h b e =
      let ls = spec (a ++ (row cell choice ∷ [])) in
      let ms = spread spec cell choices a in
      let (t, e₁, e₂) = >>=-eq-ok (next (a ++ (row cell choice ∷ [])) s) _ e in
      let o : Outcome s t ls = cov (a ++ (row cell choice ∷ [])) s t h b e₁ in
      elim (Bool-cases (ambiguous t.solutions)) [
        | inl two ↦
            let q : t ≡ s' = cc (two, e₂) in
            subst (λ u. Outcome s u (ls ++ ms)) q (and_stop ls ms o two)
        | inr one ↦ and_then ls ms o one (
            try_choices-Covers next spec cov cell choices a t s' one (bound-Outcome ls o one)
              (rw one at e₂))
      ]

  pub enumerate-Covers :
      (choices cells : List (Text × Text))
      → Covers (enumerate g contents choices cells) (leaves choices cells)
  unfolding enumerate leaves
  enumerate-Covers choices [] a s s' h b e = examine-Covers a s s' h b (rw h at e)
  enumerate-Covers choices (cell ∷ cells) a s s' h b e =
      try_choices-Covers (enumerate g contents choices cells) (leaves choices cells)
        (enumerate-Covers choices cells) cell choices a s s' h b (rw h at e)
