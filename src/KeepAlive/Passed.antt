-- ===== src/KeepAlive/Passed.antt =====
-- main/keep_alive.c, keep_alive_task: what a pass over a range of slots does, and how passes join.
use native.Mathlib.Decide.{ℕ_discrete}
use gateway_esp.Prelude.{
  ℕ, suc, ◌+◌, ◌≤◌, ◌<◌, ◌≡◌, refl, sym, ◌∙◌, ◌≢◌, ◌⊎◌, inl, inr, true, List, [], ◌∷◌, ◌++◌, none,
  some, get_elem?, get_elem?-set_ne, get_elem?-set_self, set, All, All-append, All-map,
  Has-append_left, Has-append_right, Has, arith,
}
use gateway_esp.KeepAlive.Defs.{
  ClientFdAction, Callback, client_not_alive_cb, check_client_alive_cb, Periods, is_active, cleared,
}
use gateway_esp.KeepAlive.Round.{Outcome, kept, pinged, closed}

-- The slot `i` of the table holds the active client `c`.
abbrev pub ActiveAt : List ClientFdAction → ℕ → ClientFdAction → Type 0
ActiveAt cs i c = (get_elem? cs i ≡ some c) × (is_active c.type ≡ true)

-- Why a callback was called: the client was active, and its time had passed by `end`.
abbrev pub Justified : Periods → List ClientFdAction → ℕ → Callback → Type 0
Justified p cs end (client_not_alive_cb fd) =
    (j : ℕ) × (c : ClientFdAction) × ActiveAt cs j c
    × (c.fd ≡ fd)
    × (c.last_seen + p.not_alive_after_ms ≤ end)
Justified p cs end (check_client_alive_cb fd) =
    (j : ℕ) × (c : ClientFdAction) × ActiveAt cs j c
    × (c.fd ≡ fd)
    × (c.last_seen + p.keep_alive_period_ms ≤ end)

-- What a pass over the slots from `i` to `i + k`, from time `start` to time `end`, does.
pub record Passed (p : Periods) (i k : ℕ) (cs cs' : List ClientFdAction) (out : List Callback)
    (start end : ℕ) : Type 0 where
  pub others : (j : ℕ) → (j < i) ⊎ (i + k ≤ j) → get_elem? cs' j ≡ get_elem? cs j
  pub from : (j : ℕ) (c : ClientFdAction) → ActiveAt cs' j c → ActiveAt cs j c
  pub keeps :
      (j : ℕ) (c : ClientFdAction)
      → ActiveAt cs j c
      → end < c.last_seen + p.not_alive_after_ms
      → ActiveAt cs' j c
  pub fresh :
      (j : ℕ) (c : ClientFdAction)
      → i ≤ j
      → j < i + k
      → ActiveAt cs' j c
      → start < c.last_seen + p.not_alive_after_ms
  pub gone :
      (j : ℕ) (c : ClientFdAction)
      → ActiveAt cs j c
      → ActiveAt cs' j c ⊎ Has (client_not_alive_cb c.fd) out
  pub justified : All (Justified p cs end) out
  pub called :
      (j : ℕ) (c : ClientFdAction)
      → i ≤ j
      → j < i + k
      → ActiveAt cs j c
      → c.last_seen + p.not_alive_after_ms ≤ start
      → Has (client_not_alive_cb c.fd) out

ActiveAt-cleared :
    (cs : List ClientFdAction) (i : ℕ) (c : ClientFdAction) (j : ℕ) (d : ClientFdAction)
    → get_elem? cs i ≡ some c
    → ActiveAt (set cs i (cleared c)) j d
    → (i ≢ j) × ActiveAt cs j d
ActiveAt-cleared cs i c j d e a = elim (ℕ_discrete i j) [
  | yes eq ↦ absurd (ground (arith, eq, a, get_elem?-set_self cs i (cleared c) e))
  | no ne ↦ (ne, (sym (get_elem?-set_ne cs (cleared c) ne) ∙ a.0, a.1))
]

-- A round that leaves the table alone and lets no client die.
unchanged-Passed :
    (p : Periods) (i : ℕ) (c : ClientFdAction) (cs : List ClientFdAction) (out : List Callback)
    (now later : ℕ)
    → get_elem? cs i ≡ some c
    → (is_active c.type ≡ true → now < c.last_seen + p.not_alive_after_ms)
    → All (Justified p cs later) out
    → Passed p i 1 cs cs out now later
unchanged-Passed p i c cs out now later e fresh just = record {
  others = λ j h. refl;
  from = λ j d a. a;
  keeps = λ j d a h. a;
  fresh = λ j d lo hi a. (same j d lo hi a).1;
  gone = λ j d a. inl a;
  justified = just;
  called = λ j d lo hi a h. absurd (omega (arith, (same j d lo hi a).1));
}
  where
    same :
        (j : ℕ) (d : ClientFdAction)
        → i ≤ j
        → j < i + 1
        → ActiveAt cs j d
        → (d ≡ c) × (now < d.last_seen + p.not_alive_after_ms)
    same j d lo hi a =
        let at : i ≡ j = omega arith in
        let eq : d ≡ c = ground (arith, at, e, a) in (eq, rw eq (fresh (rw eq at a.1)))

closed-Passed :
    (p : Periods) (i : ℕ) (c : ClientFdAction) (cs : List ClientFdAction) (now later : ℕ)
    → ActiveAt cs i c
    → c.last_seen + p.not_alive_after_ms ≤ later
    → Passed p i 1 cs (set cs i (cleared c)) (client_not_alive_cb c.fd ∷ []) now later
closed-Passed p i c cs now later e h = record {
  others = λ j o. get_elem?-set_ne cs (cleared c) (omega arith);
  from = λ j d a. (ActiveAt-cleared cs i c j d e.0 a).1;
  keeps = λ j d a k. elim (ℕ_discrete i j) [
    | yes eq ↦ absurd (ground (arith, eq, e, a))
    | no ne ↦ (get_elem?-set_ne cs (cleared c) ne ∙ a.0, a.1)
  ];
  fresh = λ j d lo hi a. absurd ((ActiveAt-cleared cs i c j d e.0 a).0 (omega arith));
  gone = λ j d a. elim (ℕ_discrete i j) [
    | yes eq ↦ inr (inl (ground (arith, eq, e, a)))
    | no ne ↦ inl (get_elem?-set_ne cs (cleared c) ne ∙ a.0, a.1)
  ];
  justified = ((i, c, e, refl, h), tt);
  called = λ j d lo hi a k. inl (let at : i ≡ j = omega arith in ground (arith, at, e, a));
}

pub Outcome-Passed :
    (p : Periods) (i : ℕ) (c : ClientFdAction) (cs : List ClientFdAction) (now later : ℕ)
    {cs' : List ClientFdAction} {out : List Callback}
    → p.keep_alive_period_ms ≤ p.not_alive_after_ms
    → get_elem? cs i ≡ some c
    → Outcome p i c cs now later cs' out
    → Passed p i 1 cs cs' out now later
Outcome-Passed p i c cs now later o e (kept same quiet young) =
    rw (same, quiet) (unchanged-Passed p i c cs [] now later e (λ a. omega (arith, young a)) tt)
Outcome-Passed p i c cs now later o e (pinged same ping on due alive) =
    rw (same, ping)
      (unchanged-Passed p i c cs _ now later e (λ a. alive) ((i, c, (e, on), refl, due), tt))
Outcome-Passed p i c cs now later o e (closed clear call on dead) =
    rw (clear, call) (closed-Passed p i c cs now later (e, on) dead)

-- Two passes over neighbouring ranges are one pass.
pub Passed-trans :
    (p : Periods) (i k : ℕ) (cs cs₁ cs₂ : List ClientFdAction) (out out' : List Callback)
    (t t₁ t₂ : ℕ)
    → t ≤ t₁
    → t₁ ≤ t₂
    → Passed p i 1 cs cs₁ out t t₁
    → Passed p (suc i) k cs₁ cs₂ out' t₁ t₂
    → Passed p i (suc k) cs cs₂ (out ++ out') t t₂
Passed-trans p i k cs cs₁ cs₂ out out' t t₁ t₂ le le' a b = record {
  others = λ j h. b.others j (omega arith) ∙ a.others j (omega arith);
  from = λ j c at. a.from j c (b.from j c at);
  keeps = λ j c at h. b.keeps j c (a.keeps j c at (omega arith)) h;
  fresh = λ j c lo hi at. elim (ℕ_discrete i j) [
    | yes eq ↦ a.fresh j c (omega arith) (omega arith) (b.from j c at)
    | no ne ↦ omega (arith, b.fresh j c (omega arith) (omega arith) at)
  ];
  gone = λ j c at. elim (a.gone j c at) [
    | inl still ↦ elim (b.gone j c still) [
      | inl left ↦ inl left
      | inr told ↦ inr (Has-append_right _ out out' told)
    ]
    | inr told ↦ inr (Has-append_left _ out out' told)
  ];
  justified =
      All-append (Justified p cs t₂) out out'
        (All-map (Justified p cs t₁) (Justified p cs t₂) out later a.justified)
        (All-map (Justified p cs₁ t₂) (Justified p cs t₂) out' back b.justified);
  called = λ j c lo hi at h. elim (ℕ_discrete i j) [
    | yes eq ↦ Has-append_left _ out out' (a.called j c (omega arith) (omega arith) at h)
    | no ne ↦ Has-append_right _ out out' (
        b.called j c (omega arith) (omega arith) (a.others j (omega arith) ∙ at.0, at.1)
          (omega arith))
  ];
}
  where
    later : (cb : Callback) → Justified p cs t₁ cb → Justified p cs t₂ cb
    later (client_not_alive_cb fd) (j, c, at, e, h) = (j, c, at, e, omega arith)
    later (check_client_alive_cb fd) (j, c, at, e, h) = (j, c, at, e, omega arith)

    back : (cb : Callback) → Justified p cs₁ t₂ cb → Justified p cs t₂ cb
    back (client_not_alive_cb fd) (j, c, at, e, h) = (j, c, a.from j c at, e, h)
    back (check_client_alive_cb fd) (j, c, at, e, h) = (j, c, a.from j c at, e, h)

-- A slot that the table does not have.
pub none-Passed :
    (p : Periods) (i : ℕ) (cs : List ClientFdAction) (now : ℕ)
    → get_elem? cs i ≡ none
    → Passed p i 1 cs cs [] now now
none-Passed p i cs now e = record {
  others = λ j h. refl;
  from = λ j d a. a;
  keeps = λ j d a h. a;
  fresh = λ j d lo hi a. absurd (let at : i ≡ j = omega arith in ground (arith, at, e, a));
  gone = λ j d a. inl a;
  justified = tt;
  called = λ j d lo hi a h. absurd (let at : i ≡ j = omega arith in ground (arith, at, e, a));
}

-- No slot at all.
pub empty-Passed :
    (p : Periods) (i : ℕ) (cs : List ClientFdAction) (now : ℕ) → Passed p i 0 cs cs [] now now
empty-Passed p i cs now = record {
  others = λ j h. refl;
  from = λ j d a. a;
  keeps = λ j d a h. a;
  fresh = λ j d lo hi a. absurd (omega arith);
  gone = λ j d a. inl a;
  justified = tt;
  called = λ j d lo hi a h. absurd (omega arith);
}
