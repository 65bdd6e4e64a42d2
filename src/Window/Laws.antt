-- ===== src/Window/Laws.antt =====
-- Lemmas on the window of recent ids: its bound, and how its two halves follow each other.
use sit.Prelude.{
  ◌⊎◌, some, ℕ, suc, ◌+◌, ◌≤◌, Text, ◌==◌, eq_iff, ◌≡◌, true, false, List, [], ◌∷◌, ◌++◌, arith,
  length, length-append, ltb, Map, get, put, remove, get-put, get-remove, has, contains,
  AreDistinct, contains-append_one, AreDistinct-append_one, if◌then◌else◌, ltb→le, ltb→lt,
  Bool-cases, inl, inr, ◌∙◌, sym,
}
use sit.Window.{Window, lookup, evict, push, remember}

pub record IsWindow {V : Type 0} (limit : ℕ) (w : Window V) : Type 0 where
  pub bounded : length w.order ≤ limit
  pub distinct : AreDistinct w.order
  pub agree : (id : Text) → has (get id w.seen) ≡ contains id w.order

has-put :
    {V : Type 0} (id j : Text) (v : V) (m : Map V)
    → has (get j (put id v m)) ≡ (if id == j then true else has (get j m))
has-put id j v m = rw get-put (ground arith)

has-remove :
    {V : Type 0} (id j : Text) (m : Map V)
    → has (get j (remove id m)) ≡ (if id == j then false else has (get j m))
has-remove id j m = rw get-remove (ground arith)

module _ {V : Type 0} (limit : ℕ) where
  drop-IsWindow :
      (old : Text) (rest : List Text) (seen : Map V)
      → length rest ≤ limit
      → AreDistinct (old ∷ rest)
      → ((j : Text) → has (get j seen) ≡ contains j (old ∷ rest))
      → IsWindow limit (record { seen = remove old seen; order = rest })
  drop-IsWindow old rest seen b d a = record {
    bounded = b;
    distinct = d.1;
    agree = λ j. ground (arith, has-remove old j seen, a j, eq_iff old j);
  }

  evict-IsWindow :
      (order : List Text) (seen : Map V)
      → length order ≤ limit + 1
      → AreDistinct order
      → ((j : Text) → has (get j seen) ≡ contains j order)
      → IsWindow limit (evict limit (record { seen = seen; order = order }))
  unfolding evict
  evict-IsWindow [] seen b d a = elim (Bool-cases (ltb limit 0)) [
    | inl e ↦ absurd (omega (arith, ltb→lt limit 0 e))
    | inr e ↦ rw e (record { bounded = omega arith; distinct = d; agree = a })
  ]
  evict-IsWindow (old ∷ rest) seen b d a = elim (Bool-cases (ltb limit (suc (length rest)))) [
    | inl e ↦ rw e (drop-IsWindow old rest seen (omega arith) d a)
    | inr e ↦
        rw e (record { bounded = ltb→le limit (suc (length rest)) e; distinct = d; agree = a })
  ]

  -- Pushing an id that is not in the window keeps it well formed.
  pub push-IsWindow :
      (id : Text) (v : V) (w : Window V)
      → IsWindow limit w
      → has (lookup id w) ≡ false
      → IsWindow limit (push limit id v w)
  unfolding push lookup
  push-IsWindow id v w h n =
      evict-IsWindow (w.order ++ id ∷ []) (put id v w.seen)
        (omega (arith, length-append w.order (id ∷ []), h.bounded))
        (AreDistinct-append_one id w.order h.distinct (sym (h.agree id) ∙ n))
        (λ j. ground (arith, has-put id j v w.seen, h.agree j, contains-append_one j id w.order))

  -- `id` stands in the order with `k` younger ids at most.
  pub record IsYoung (k : ℕ) (id : Text) (w : Window V) : Type 0 where
    pub older : List Text
    pub younger : List Text
    pub place : w.order ≡ older ++ id ∷ younger
    pub few : length younger ≤ k

-- What can be found in a window was there before, or has just come in.
module _ {V : Type 0} (limit : ℕ) where
  found_in_evict :
      (order : List Text) (seen : Map V) (j : Text) (u : V)
      → get j (evict limit (record { seen = seen; order = order })).seen ≡ some u
      → get j seen ≡ some u
  unfolding evict
  found_in_evict [] seen j u h = ground arith
  found_in_evict (old ∷ rest) seen j u h = ground (arith, get-remove old j seen)

  pub found_in_push :
      (id : Text) (v : V) (w : Window V) (j : Text) (u : V)
      → lookup j (push limit id v w) ≡ some u
      → ((id ≡ j) × (v ≡ u)) ⊎ (lookup j w ≡ some u)
  unfolding push lookup
  found_in_push id v w j u h =
      put_cases (found_in_evict (w.order ++ id ∷ []) (put id v w.seen) j u h)
    where
      put_cases : get j (put id v w.seen) ≡ some u → ((id ≡ j) × (v ≡ u)) ⊎ (get j w.seen ≡ some u)
      put_cases g = ground (arith, get-put id j v w.seen, eq_iff id j)

  pub found_in_remember :
      (id : Text) (v : V) (w : Window V) (j : Text) (u : V)
      → lookup j (remember limit id v w) ≡ some u
      → ((id ≡ j) × (v ≡ u)) ⊎ (lookup j w ≡ some u)
  unfolding remember
  found_in_remember id v w j u h = elim (Bool-cases (has (lookup id w))) [
    | inl e ↦ inr (rw e at h)
    | inr e ↦ found_in_push id v w j u (rw e at h)
  ]
