-- ===== src/Protocol/Fresh.antt =====
-- Which evidence is within the window of src/protocol.rs.
use anasemble.Prelude.{
  ℕ, ◌+◌, ◌≤◌, ◌≡◌, ◌↔◌, refl, sym, ap, ◌∙◌, true, not, Option, none, some, List, [], ◌∷◌, map,
  arith, ok, refuse_if, ok_or, >>=-eq-ok, refuse_if-eq-ok, refuse_if-passes, >>-passes, All, length,
  ltb, ok-injective,
}
use anasemble.Text.{Text}
use anasemble.Fragments.{Crypto, Envelope}
use anasemble.Protocol.{
  EvidenceWindow, check_fresh, check_each_fresh, validate_freshness, Entry, regular_json_files,
  regular_json_files_from,
}

ok_or-some : {A E : Type 0} (o : Option A) (e : E) (a : A) → ok_or o e ≡ ok a → o ≡ some a
ok_or-some none e a h = cc
ok_or-some (some b) e a h = cc

module _ (c : Crypto) where
  -- Issued within the instants.
  pub record IsFresh (not_before not_after : ℕ) (e : Envelope) : Type 0 where
    pub time : ℕ
    pub issued : c.strptime e.issued_at ≡ some time
    pub after : not_before ≤ time
    pub before : time ≤ not_after

  pub record IsWithin (window : EvidenceWindow) (envelopes : List Envelope) : Type 0 where
    pub not_before : ℕ
    pub not_after : ℕ
    pub starts : c.strptime window.not_before ≡ some not_before
    pub ends : c.strptime window.not_after ≡ some not_after
    pub forward : not_before ≤ not_after
    pub fresh : All (IsFresh not_before not_after) envelopes

  -- Without a window all evidence is fresh.
  abbrev pub IsFreshEvidence : List Envelope → Option EvidenceWindow → Type 0
  IsFreshEvidence envelopes none = Unit {0}
  IsFreshEvidence envelopes (some window) = IsWithin window envelopes

  check_fresh_iff : (a b : ℕ) (e : Envelope) → (check_fresh c a b e ≡ ok tt) ↔ IsFresh a b e
  unfolding check_fresh
  check_fresh_iff a b e = (
    λ h.
        let (t, p, h1) = >>=-eq-ok (ok_or (c.strptime e.issued_at) _) _ h in
        let s = refuse_if-eq-ok _ _ h1 in
        record {
          time = t;
          issued = ok_or-some _ _ t p;
          after = ground (arith, s);
          before = ground (arith, s);
        },
    λ h. ground (arith, h.issued, h.after, h.before),
  )

  check_each_fresh_iff :
      (a b : ℕ) (es : List Envelope) → (check_each_fresh c a b es ≡ ok tt) ↔ All (IsFresh a b) es
  unfolding check_each_fresh
  check_each_fresh_iff a b [] = (λ h. tt, λ h. refl)
  check_each_fresh_iff a b (e ∷ es) = (
    λ h.
        let (_, p, h1) = >>=-eq-ok (check_fresh c a b e) _ h in
        ((check_fresh_iff a b e).0 p, (check_each_fresh_iff a b es).0 h1),
    λ (p, ps). >>-passes ((check_fresh_iff a b e).1 p) ((check_each_fresh_iff a b es).1 ps),
  )

  validate_freshness-IsFreshEvidence :
      (es : List Envelope) (w : Option EvidenceWindow)
      → validate_freshness c es w ≡ ok tt
      → IsFreshEvidence es w
  unfolding validate_freshness
  validate_freshness-IsFreshEvidence es none h = tt
  validate_freshness-IsFreshEvidence es (some w) h =
      let (a, p, h1) = >>=-eq-ok (ok_or (c.strptime w.not_before) _) _ h in
      let (b, q, h2) = >>=-eq-ok (ok_or (c.strptime w.not_after) _) _ h1 in
      let (_, f, h3) = >>=-eq-ok (refuse_if (ltb b a) _) _ h2 in
      let s = refuse_if-eq-ok _ _ f in
      record {
        not_before = a;
        not_after = b;
        starts = ok_or-some _ _ a p;
        ends = ok_or-some _ _ b q;
        forward = ground (arith, s);
        fresh = (check_each_fresh_iff a b es).0 h3;
      }

  validate_freshness_of_IsFreshEvidence :
      (es : List Envelope) (w : Option EvidenceWindow)
      → IsFreshEvidence es w
      → validate_freshness c es w ≡ ok tt
  unfolding validate_freshness
  validate_freshness_of_IsFreshEvidence es none h = refl
  validate_freshness_of_IsFreshEvidence es (some w) h =
      rw (h.starts, h.ends)
        (>>-passes (refuse_if-passes (ltb h.not_after h.not_before) _ (ground (arith, h.forward)))
          ((check_each_fresh_iff h.not_before h.not_after es).1 h.fresh))

  -- Evidence passes exactly where there is no window, or the window is not inverted and every
  -- fragment was issued within it, its ends included.
  pub validate_freshness_iff :
      (es : List Envelope) (w : Option EvidenceWindow)
      → (validate_freshness c es w ≡ ok tt) ↔ IsFreshEvidence es w
  validate_freshness_iff es w =
      (validate_freshness-IsFreshEvidence es w, validate_freshness_of_IsFreshEvidence es w)

-- A directory whose entries are regular JSON files, and few enough.
pub record IsListed (directory : List Entry) (max_files : ℕ) (paths : List Text) : Type 0 where
  pub few : length directory ≤ max_files
  pub regular : All (λ (e : Entry). (e.is_regular ≡ true) × (e.is_json ≡ true)) directory
  pub listed : paths ≡ map (λ (e : Entry). e.path) directory

regular_json_files_from-IsListed :
    (max_files n : ℕ) (es : List Entry) (paths : List Text)
    → n ≤ max_files
    → regular_json_files_from max_files n es ≡ ok paths
    → (n + length es ≤ max_files)
      × All (λ (e : Entry). (e.is_regular ≡ true) × (e.is_json ≡ true)) es
      × (paths ≡ map (λ (e : Entry). e.path) es)
unfolding regular_json_files_from
regular_json_files_from-IsListed max_files n [] paths l h = (ground arith, tt, sym (ok-injective h))
regular_json_files_from-IsListed max_files n (e ∷ es) paths l h =
    let (_, p, h1) = >>=-eq-ok (refuse_if (ltb max_files (n + 1)) _) _ h in
    let (_, q, h2) = >>=-eq-ok (refuse_if (not e.is_regular) _) _ h1 in
    let (_, r, h3) = >>=-eq-ok (refuse_if (not e.is_json) _) _ h2 in
    let (rest, s, h4) = >>=-eq-ok (regular_json_files_from max_files (n + 1) es) _ h3 in
    let ps = refuse_if-eq-ok _ _ p in
    let qs = refuse_if-eq-ok _ _ q in
    let rs = refuse_if-eq-ok _ _ r in
    let (a, b, d) =
      regular_json_files_from-IsListed max_files (n + 1) es rest (ground (arith, ps)) s in
    (
      omega (arith, a),
      ((ground (arith, qs), ground (arith, rs)), b),
      sym (ok-injective h4) ∙ ap (λ xs. e.path ∷ xs) d,
    )

-- The listing of the fragments succeeds only on at most max_files entries that are all regular
-- JSON files, and names them all.
pub regular_json_files-IsListed :
    (directory : List Entry) (max_files : ℕ) (paths : List Text)
    → regular_json_files directory max_files ≡ ok paths
    → IsListed directory max_files paths
unfolding regular_json_files
regular_json_files-IsListed directory max_files paths h =
    let (a, b, d) = regular_json_files_from-IsListed max_files 0 directory paths (ground arith) h in
    record { few = ground (arith, a); regular = b; listed = d }
