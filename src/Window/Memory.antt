-- ===== src/Window/Memory.antt =====
-- Lemmas on how long an id stays in the window of recent ids.
use sit.Prelude.{
  ℕ, suc, ◌+◌, ◌≤◌, ◌<◌, Text, eq_iff, eq_refl, ◌≡◌, refl, true, false, none, some, List, [], ◌∷◌,
  ◌++◌, arith, length, length-append, ltb, Map, get, put, get-put, get-remove, has, contains,
  AreDistinct, contains-append_one, AreDistinct-append_one, if◌then◌else◌, Bool-cases, inl, inr, ap,
  ◌∙◌, sym, le→ltb,
}
use mathlib.Core.List.{append_assoc}
use sit.Window.{Window, lookup, evict, push, remember, remember_all}
use sit.Window.Laws.{IsWindow, push-IsWindow}

contains-append :
    (j : Text) (xs ys : List Text)
    → contains j (xs ++ ys) ≡ (if contains j xs then true else contains j ys)
contains-append j [] ys = refl
contains-append j (x ∷ xs) ys = ground (arith, contains-append j xs ys)

module _ {V : Type 0} (limit : ℕ) (id : Text) (v : V) where
  -- `id` has its value, and stands in the order with `k` younger ids at most.
  pub record IsYoung (k : ℕ) (w : Window V) : Type 0 where
    pub older : List Text
    pub younger : List Text
    pub place : w.order ≡ older ++ id ∷ younger
    pub few : length younger ≤ k
    pub held : get id w.seen ≡ some v

  -- Evicting cannot reach `id` while fewer younger ids than the limit stand behind it.
  evict-IsYoung :
      (k : ℕ) (older younger : List Text) (seen : Map V)
      → length younger ≤ k
      → k < limit
      → AreDistinct (older ++ id ∷ [])
      → get id seen ≡ some v
      → IsYoung k (evict limit (record { seen = seen; order = older ++ id ∷ younger }))
  unfolding evict
  evict-IsYoung k [] younger seen f l d h =
      rw (le→ltb limit (suc (length younger)) (omega arith))
        (record { older = []; younger = younger; place = refl; few = f; held = h })
  evict-IsYoung k (o ∷ os) younger seen f l d h =
      elim (Bool-cases (ltb limit (suc (length (os ++ id ∷ younger))))) [
        | inl e ↦ rw e (record {
          older = os;
          younger = younger;
          place = refl;
          few = f;
          held =
              get-remove o id seen ∙ ground (arith, d.0, contains-append_one o id os, eq_iff o id);
        })
        | inr e ↦
            rw e (record { older = o ∷ os; younger = younger; place = refl; few = f; held = h })
      ]

  prefix_distinct :
      (older younger : List Text)
      → AreDistinct (older ++ id ∷ younger)
      → AreDistinct (older ++ id ∷ [])
  prefix_distinct [] younger d = (refl, tt)
  prefix_distinct (o ∷ os) younger d = (
    contains-append_one o id os ∙ ground (arith, d.0, contains-append o os (id ∷ younger)),
    prefix_distinct os younger d.1,
  )

  push-IsYoung :
      (k : ℕ) (x : Text) (u : V) (w : Window V)
      → IsWindow limit w
      → IsYoung k w
      → suc k < limit
      → has (lookup x w) ≡ false
      → IsYoung (suc k) (push limit x u w)
  unfolding push lookup
  push-IsYoung k x u w h y l n =
      rw (y.place, append_assoc y.older (id ∷ y.younger) (x ∷ []))
        (evict-IsYoung (suc k) y.older (y.younger ++ x ∷ []) (put x u w.seen)
          (omega (arith, length-append y.younger (x ∷ []), y.few)) l
          (prefix_distinct y.older y.younger (rw y.place at h.distinct))
          (get-put x id u w.seen ∙ ground (arith, y.held, eq_iff x id)))

  -- The state of the window while `k` further ids at most have come in since `id` did.
  pub record Holds (k : ℕ) (w : Window V) : Type 0 where
    pub window : IsWindow limit w
    pub young : IsYoung k w

  pub Holds-later : (k : ℕ) (w : Window V) → Holds k w → Holds (suc k) w
  Holds-later k w h = record {
    window = h.window;
    young = record {
      older = h.young.older;
      younger = h.young.younger;
      place = h.young.place;
      few = omega (arith, h.young.few);
      held = h.young.held;
    };
  }

  pub remember-Holds :
      (k : ℕ) (x : Text) (u : V) (w : Window V)
      → Holds k w
      → suc k < limit
      → Holds (suc k) (remember limit x u w)
  unfolding remember
  remember-Holds k x u w h l = elim (Bool-cases (has (lookup x w))) [
    | inl e ↦ rw e (Holds-later k w h)
    | inr e ↦ rw e (record {
      window = push-IsWindow limit x u w h.window e;
      young = push-IsYoung k x u w h.window h.young l e;
    })
  ]

  Holds-all :
      (k : ℕ) (rs : List (Text × V)) (w : Window V)
      → Holds k w
      → k + length rs < limit
      → lookup id (remember_all limit rs w) ≡ some v
  unfolding remember_all lookup
  Holds-all k [] w h l = h.young.held
  Holds-all k ((x, u) ∷ rs) w h l =
      Holds-all (suc k) rs (remember limit x u w) (remember-Holds k x u w h (omega arith))
        (omega arith)

  pub first_Holds :
      (w : Window V)
      → IsWindow limit w
      → 0 < limit
      → lookup id w ≡ none
      → Holds 0 (push limit id v w)
  unfolding push lookup
  first_Holds w h l n = record {
    window = push-IsWindow limit id v w h (rw n refl);
    young =
        evict-IsYoung 0 w.order [] (put id v w.seen) (omega arith) l
          (AreDistinct-append_one id w.order h.distinct (sym (h.agree id) ∙ ap has n))
          (get-put id id v w.seen ∙ rw eq_refl refl);
  }

  pub lookup-push_self :
      (w : Window V)
      → IsWindow limit w
      → 0 < limit
      → lookup id w ≡ none
      → lookup id (push limit id v w) ≡ some v
  unfolding lookup
  lookup-push_self w h l n = (first_Holds w h l n).young.held

  -- In a well-formed window, an id that was not there keeps the value that it is given while fewer
  -- than `limit` further ids come in, whatever they are.
  pub lookup-remember_all :
      (w : Window V) (rs : List (Text × V))
      → IsWindow limit w
      → lookup id w ≡ none
      → length rs < limit
      → lookup id (remember_all limit rs (remember limit id v w)) ≡ some v
  unfolding remember
  lookup-remember_all w rs h n l =
      rw n (Holds-all 0 rs (push limit id v w) (first_Holds w h (omega arith) n) (omega arith))
