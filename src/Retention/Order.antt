-- ===== src/Retention/Order.antt =====
-- internal/application/retention.go: the comparison of `applyEvictionRules` as an order.
use filelist_streaming_servi.Base.{
  ℕ, compare, Ordering, ◌≡◌, refl, true, false, List, [], ◌∷◌, Runes, codes, arith, ◌≢◌, not,
}
use filelist_streaming_servi.Retention.{
  Route, Rule, compare_by, compare_runes, or_else, eviction_order, evicted_before, rule_of,
  completed_at, oldest_completed, newest_completed, least_recently_played, most_recently_played,
  watched_first, never_watched_first, largest, smallest,
}

-- One comparison seen from the other side.
abbrev flip : Ordering → Ordering
flip Ordering.lt = Ordering.gt
flip Ordering.eq = Ordering.eq
flip Ordering.gt = Ordering.lt

-- What the answers for `a` against `b` and for `b` against `c` say of `a` against `c`.
abbrev Chains : Ordering → Ordering → Ordering → Type 0
Chains Ordering.eq q r = r ≡ q
Chains Ordering.lt Ordering.gt r = Unit {0}
Chains Ordering.lt Ordering.lt r = r ≡ Ordering.lt
Chains Ordering.lt Ordering.eq r = r ≡ Ordering.lt
Chains Ordering.gt Ordering.lt r = Unit {0}
Chains Ordering.gt Ordering.gt r = r ≡ Ordering.gt
Chains Ordering.gt Ordering.eq r = r ≡ Ordering.gt

flip-compare : (m n : ℕ) → compare n m ≡ flip (compare m n)
flip-compare m n = ground arith

Chains-compare : (m n k : ℕ) → Chains (compare m n) (compare n k) (compare m k)
Chains-compare m n k = ground arith

flip-or_else :
    (p q p' q' : Ordering) → p' ≡ flip p → q' ≡ flip q → or_else p' q' ≡ flip (or_else p q)
flip-or_else p q p' q' h k = ground arith

Chains-or_else :
    (p q r p' q' r' : Ordering)
    → Chains p q r
    → Chains p' q' r'
    → Chains (or_else p p') (or_else q q') (or_else r r')
Chains-or_else p q r p' q' r' h k = ground arith

flip-compare_by : (r : Rule) (a b : Route) → compare_by r b a ≡ flip (compare_by r a b)
unfolding compare_by
flip-compare_by oldest_completed a b = flip-compare _ _
flip-compare_by newest_completed a b = flip-compare _ _
flip-compare_by least_recently_played a b = flip-compare _ _
flip-compare_by most_recently_played a b = flip-compare _ _
flip-compare_by watched_first a b = ground arith
flip-compare_by never_watched_first a b = ground arith
flip-compare_by largest a b = flip-compare _ _
flip-compare_by smallest a b = flip-compare _ _

Chains-compare_by :
    (r : Rule) (a b c : Route) → Chains (compare_by r a b) (compare_by r b c) (compare_by r a c)
unfolding compare_by
Chains-compare_by oldest_completed a b c = Chains-compare (completed_at a) _ _
Chains-compare_by newest_completed a b c = ground arith
Chains-compare_by least_recently_played a b c = ground arith
Chains-compare_by most_recently_played a b c = ground arith
Chains-compare_by watched_first a b c = ground arith
Chains-compare_by never_watched_first a b c = ground arith
Chains-compare_by largest a b c = ground arith
Chains-compare_by smallest a b c = ground arith

flip-compare_runes : (s t : Runes) → compare_runes t s ≡ flip (compare_runes s t)
unfolding compare_runes
flip-compare_runes [] [] = refl
flip-compare_runes [] (d ∷ t) = refl
flip-compare_runes (c ∷ s) [] = refl
flip-compare_runes (c ∷ s) (d ∷ t) = ground (arith, flip-compare_runes s t)

Chains-compare_runes :
    (s t u : Runes) → Chains (compare_runes s t) (compare_runes t u) (compare_runes s u)
unfolding compare_runes
Chains-compare_runes [] [] u = ground arith
Chains-compare_runes [] (d ∷ t) [] = tt
Chains-compare_runes [] (d ∷ t) (e ∷ u) = ground arith
Chains-compare_runes (c ∷ s) [] [] = refl
Chains-compare_runes (c ∷ s) [] (e ∷ u) = tt
Chains-compare_runes (c ∷ s) (d ∷ t) [] = ground arith
Chains-compare_runes (c ∷ s) (d ∷ t) (e ∷ u) = ground (arith, Chains-compare_runes s t u)

eq_of_compare_runes : (s t : Runes) → compare_runes s t ≡ Ordering.eq → s ≡ t
unfolding compare_runes
eq_of_compare_runes [] [] h = refl
eq_of_compare_runes [] (d ∷ t) h = cc
eq_of_compare_runes (c ∷ s) [] h = cc
eq_of_compare_runes (c ∷ s) (d ∷ t) h = ground (arith, eq_of_compare_runes s t)

flip-eviction_order :
    (rules : List Runes) (a b : Route) → eviction_order rules b a ≡ flip (eviction_order rules a b)
unfolding eviction_order
flip-eviction_order [] a b =
    flip-or_else _ _ _ _ (flip-compare (completed_at a) (completed_at b))
      (flip-compare_runes (codes a.engine_id) (codes b.engine_id))
flip-eviction_order (rule ∷ rules) a b =
    flip-or_else _ _ _ _ (flip-compare_by (rule_of rule) a b) (flip-eviction_order rules a b)

Chains-eviction_order :
    (rules : List Runes) (a b c : Route)
    → Chains (eviction_order rules a b) (eviction_order rules b c) (eviction_order rules a c)
unfolding eviction_order
Chains-eviction_order [] a b c =
    Chains-or_else _ _ _ _ _ _ (Chains-compare (completed_at a) (completed_at b) (completed_at c))
      (Chains-compare_runes (codes a.engine_id) (codes b.engine_id) (codes c.engine_id))
Chains-eviction_order (rule ∷ rules) a b c =
    Chains-or_else _ _ _ _ _ _ (Chains-compare_by (rule_of rule) a b c)
      (Chains-eviction_order rules a b c)

-- Never both before one another.
pub evicted_before_asym :
    (rules : List Runes) (a b : Route)
    → evicted_before rules a b ≡ true
    → evicted_before rules b a ≡ false
unfolding evicted_before
evicted_before_asym rules a b h = ground (arith, flip-eviction_order rules a b)

-- Not being before is transitive: what no rule separates is interchangeable.
pub evicted_before_neg_trans :
    (rules : List Runes) (a b c : Route)
    → evicted_before rules b a ≡ false
    → evicted_before rules c b ≡ false
    → evicted_before rules c a ≡ false
unfolding evicted_before
evicted_before_neg_trans rules a b c h k = ground (arith, Chains-eviction_order rules c b a)

eq_of_eviction_order :
    (rules : List Runes) (a b : Route)
    → eviction_order rules a b ≡ Ordering.eq
    → codes a.engine_id ≡ codes b.engine_id
unfolding eviction_order
eq_of_eviction_order [] a b h =
    ground (arith, eq_of_compare_runes (codes a.engine_id) (codes b.engine_id))
eq_of_eviction_order (rule ∷ rules) a b h = ground (arith, eq_of_eviction_order rules a b)

-- Of two routes with different engine ids exactly one is evicted before the other, whatever the rules.
pub evicted_before_total :
    (rules : List Runes) (a b : Route)
    → codes a.engine_id ≢ codes b.engine_id
    → evicted_before rules a b ≡ not (evicted_before rules b a)
unfolding evicted_before
evicted_before_total rules a b ne =
    ground (arith, flip-eviction_order rules a b, eq_of_eviction_order rules a b)
