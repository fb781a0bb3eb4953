-- ===== src/MigrationPlan/Loop.antt =====
-- One round of the loop of `topological_order`, and the invariant that it keeps.
use pgproof.Common.{
  ℕ, ◌+◌, ◌-◌, String, true, false, not, ◌&&◌, List, [], ◌∷◌, ◌≡◌, refl, sym, ap, ◌∙◌, ◌≢◌, ◌⊎◌,
  inl, inr, arith, eqn, ◌==◌, text_equality, push, contains, contains-push, contains→In, eq_of_test,
  All-In, All-append, times, In, All, Distinct, Bool-cases, In-push_cases,
}
use pgproof.Common.Dict.{
  Dict, get, put, get_or, keys, get_or-put, keys-put, keys-put_mono, Distinct-keys-put,
}
use pgproof.MigrationPlan.Defs.{lower, free}
use pgproof.MigrationPlan.Edges.{Edges, open_edges, preds}

get_or-lower :
    (xs : List String) (degrees : Dict String ℕ) (s : String)
    → get_or 0 s (lower xs degrees) ≡ get_or 0 s degrees - times s xs
unfolding lower
get_or-lower [] degrees s = omega arith
get_or-lower (x ∷ xs) degrees s = ground (
  arith,
  get_or-lower xs (put x (get_or 0 x degrees - 1) degrees) s,
  get_or-put 0 x s (get_or 0 x degrees - 1) degrees,
)

keys-lower :
    (xs : List String) (degrees : Dict String ℕ) (known : List String)
    → ((s : String) → In s xs → In s known)
    → ((s : String) → In s (keys degrees) → In s known)
    → (s : String) → In s (keys (lower xs degrees))
    → In s known
unfolding lower
keys-lower [] degrees known f g s m = g s m
keys-lower (x ∷ xs) degrees known f g s m =
    keys-lower xs (put x (get_or 0 x degrees - 1) degrees) known (λ t k. f t (inr k)) still s m
  where
    still : (t : String) → In t (keys (put x (get_or 0 x degrees - 1) degrees)) → In t known
    still t k = elim (keys-put x (get_or 0 x degrees - 1) degrees t k) [
      | inl p ↦ rw p (f x (inl refl))
      | inr q ↦ g t q
    ]

keys-lower_mono :
    (xs : List String) (degrees : Dict String ℕ) (s : String)
    → In s (keys degrees)
    → In s (keys (lower xs degrees))
unfolding lower
keys-lower_mono [] degrees s m = m
keys-lower_mono (x ∷ xs) degrees s m =
    keys-lower_mono xs (put x (get_or 0 x degrees - 1) degrees) s
      (keys-put_mono x (get_or 0 x degrees - 1) degrees s m)

Distinct-keys-lower :
    (xs : List String) (degrees : Dict String ℕ)
    → Distinct (keys degrees)
    → Distinct (keys (lower xs degrees))
unfolding lower
Distinct-keys-lower [] degrees h = h
Distinct-keys-lower (x ∷ xs) degrees h =
    Distinct-keys-lower xs (put x (get_or 0 x degrees - 1) degrees)
      (Distinct-keys-put x (get_or 0 x degrees - 1) degrees h)

-- Placing `c` closes the edges that lead to it.
open_edges-push :
    (order : List String) (c s : String) (es : Edges)
    → contains c order ≡ false
    → open_edges order s es ≡ open_edges (push order c) s es + times s (preds c es)
open_edges-push order c s [] h = omega arith
open_edges-push order c s ((a, d) ∷ es) h =
    ground (arith, open_edges-push order c s es h, contains-push d order c)

open_edges-zero :
    (order : List String) (s : String) (es : Edges)
    → open_edges order s es ≡ 0
    → (d : String) → In (s, d) es
    → contains d order ≡ true
open_edges-zero order s [] h d m = elim m [ ]
open_edges-zero order s ((a, b) ∷ es) h d (inl p) =
    ground (arith, ap (λ (q : String × String). q.0) p, ap (λ (q : String × String). q.1) p)
open_edges-zero order s ((a, b) ∷ es) h d (inr m) =
    ground (arith, open_edges-zero order s es (ground arith) d m)

pub all_placed-zero :
    (order : List String) (s : String) (es : Edges)
    → ((d : String) → In (s, d) es → contains d order ≡ true)
    → open_edges order s es ≡ 0
all_placed-zero order s [] f = refl
all_placed-zero order s ((a, b) ∷ es) f =
    let later = all_placed-zero order s es (λ d m. f d (inr m)) in
    elim (Bool-cases (a == s)) [
      | inl t ↦
          let here = f b (inl (ap (λ (x : String). (x, b)) (sym (eq_of_test a s t)))) in
          rw (t, here) later
      | inr g ↦ rw g later
    ]

-- What stands in `free`, and what it leaves out.
get-tail :
    (k x : String) (v : ℕ) (items : Dict String ℕ)
    → All (λ j. k ≢ j) (keys items)
    → In x (keys items)
    → get_or 0 x ((k, v) ∷ items) ≡ get_or 0 x items
unfolding get
get-tail k x v items h m =
    let other = All-In (λ j. k ≢ j) x (keys items) h m in ground (arith, other)

pub record IsFree (order : List String) (degrees : Dict String ℕ) (x : String) : Type 0 where
  pub key : In x (keys degrees)
  pub closed : get_or 0 x degrees ≡ 0
  pub unplaced : contains x order ≡ false

IsFree-cons :
    (order : List String) (k : String) (v : ℕ) (items : Dict String ℕ) (x : String)
    → All (λ j. k ≢ j) (keys items)
    → IsFree order items x
    → IsFree order ((k, v) ∷ items) x
IsFree-cons order k v items x h f = record {
  key = inr f.key;
  closed = get-tail k x v items h f.key ∙ f.closed;
  unplaced = f.unplaced;
}

free-IsFree :
    (order : List String) (items : Dict String ℕ) (x : String)
    → Distinct (keys items)
    → In x (free order items)
    → IsFree order items x
unfolding free get
free-IsFree order [] x h m = elim m [ ]
free-IsFree order ((k, v) ∷ items) x h m =
    let later = free-IsFree order items x h.1 in
    elim (Bool-cases (eqn v 0 && not (contains k order))) [
      | inl t ↦ elim (rw t at m) [
        | inl p ↦ record { key = inl p; closed = ground arith; unplaced = ground arith }
        | inr n ↦ IsFree-cons order k v items x h.0 (later n)
      ]
      | inr f ↦ IsFree-cons order k v items x h.0 (later (rw f at m))
    ]

pub IsFree-free :
    (order : List String) (items : Dict String ℕ) (x : String)
    → Distinct (keys items)
    → IsFree order items x
    → In x (free order items)
unfolding free get
IsFree-free order [] x h f = elim f.key [ ]
IsFree-free order ((k, v) ∷ items) x h f = elim f.key [
  | inl p ↦
      let t : (eqn v 0 && not (contains k order)) ≡ true =
        ground (arith, f.closed, f.unplaced, p) in
      rw t (inl p)
  | inr m ↦
      let later = IsFree-free order items x h.1 (record {
        key = m;
        closed = sym (get-tail k x v items h.0 m) ∙ f.closed;
        unplaced = f.unplaced;
      }) in
      elim (Bool-cases (eqn v 0 && not (contains k order))) [
        | inl t ↦ rw t (inr later)
        | inr g ↦ rw g later
      ]
]

-- Each step comes after the steps that it depends on.
abbrev pub IsOrdered : Edges → List String → List String → Type 0
IsOrdered es seen [] = Unit
IsOrdered es seen (x ∷ xs) = ((d : String) → In (x, d) es → In d seen) × IsOrdered es (x ∷ seen) xs

IsOrdered-push :
    (es : Edges) (seen xs : List String) (x : String)
    → IsOrdered es seen xs
    → ((d : String) → In (x, d) es → In d xs ⊎ In d seen)
    → IsOrdered es seen (push xs x)
IsOrdered-push es seen [] x h f = (λ d m. elim (f d m) [ inl n ↦ elim n [ ] | inr k ↦ k ], tt)
IsOrdered-push es seen (y ∷ ys) x h f = (h.0, IsOrdered-push es (y ∷ seen) ys x h.1 moved)
  where
    moved : (d : String) → In (x, d) es → In d ys ⊎ In d (y ∷ seen)
    moved d m = elim (f d m) [
      | inl k ↦ elim k [ inl p ↦ inr (inl p) | inr n ↦ inl n ]
      | inr n ↦ inr (inr n)
    ]

Distinct-push :
    (xs : List String) (x : String) → Distinct xs → contains x xs ≡ false → Distinct (push xs x)
Distinct-push [] x h f = (tt, tt)
Distinct-push (y ∷ ys) x h f = (
  All-append (λ z. y ≢ z) ys (x ∷ []) h.0 (ground arith, tt),
  Distinct-push ys x h.1 (ground arith),
)

-- The invariant, over the edges and the steps of the plan.
pub record Loop (known : List String) (es : Edges) (order : List String) (degrees : Dict String ℕ)
    : Type 0 where
  pub degree : (s : String) → get_or 0 s degrees ≡ open_edges order s es
  pub keys_once : Distinct (keys degrees)
  pub keys_named : (s : String) → In s (keys degrees) → In s known
  pub keys_all : (s : String) → In s known → In s (keys degrees)
  pub once : Distinct order
  pub named : (s : String) → In s order → In s known
  pub ordered : IsOrdered es [] order

-- What is known of `dependents`, which the loop only reads.
pub record Reads (known : List String) (es : Edges) (dependents : Dict String (List String))
    : Type 0 where
  pub counted : (d s : String) → times s (get_or [] d dependents) ≡ times s (preds d es)
  pub steps : (d s : String) → In s (get_or [] d dependents) → In s known

module _ {known : List String} {es : Edges} {dependents : Dict String (List String)}
    (reads : Reads known es dependents) (order : List String) (degrees : Dict String ℕ)
    (current : String) where
  pub Loop-round :
      Loop known es order degrees
      → In current (free order degrees)
      → Loop known es (push order current) (lower (get_or [] current dependents) degrees)
  Loop-round h m =
      let f = free-IsFree order degrees current h.keys_once m in
      let next = get_or [] current dependents in
      record {
        degree = λ s. omega (
          arith,
          get_or-lower next degrees s,
          h.degree s,
          open_edges-push order current s es f.unplaced,
          reads.counted current s,
        );
        keys_once = Distinct-keys-lower next degrees h.keys_once;
        keys_named = keys-lower next degrees known (reads.steps current) h.keys_named;
        keys_all = λ s k. keys-lower_mono next degrees s (h.keys_all s k);
        once = Distinct-push order current h.once f.unplaced;
        named = λ s k. elim (In-push_cases s current order k) [
          | inl old ↦ h.named s old
          | inr new ↦ rw new (h.keys_named current f.key)
        ];
        ordered = IsOrdered-push es [] order current h.ordered (λ d e. inl (
            contains→In d order
              (open_edges-zero order current es (sym (h.degree current) ∙ f.closed) d e)));
      }
