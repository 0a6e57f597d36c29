-- ===== src/LruCache/Histories.antt =====
-- Sequences of calls of the cache of LRU cache/main.go.
use low_level_design_in_go.Base.{
  ℕ, zero, suc, ◌+◌, ◌≤◌, ◌<◌, ◌≡◌, refl, sym, ap, ◌∙◌, String, Option, none, some, List, has, [],
  ◌∷◌, arith, length,
}
use low_level_design_in_go.Base.Int.{pos}
use low_level_design_in_go.Base.Run.{Run, ok, Returns, returns, Returns-bind, Returns-map, ◌>>=◌}
use low_level_design_in_go.LruCache.{LruNode, LruCache, new_lru_cache, put, get, show, show_from}
use low_level_design_in_go.LruCache.Chains.{eq_address, Linked, first_or}
use low_level_design_in_go.LruCache.Recency.{put_model, get_model, length-entries}
use low_level_design_in_go.LruCache.Finding.{Models}
use low_level_design_in_go.LruCache.Following.{put-Follows, get-Follows}

pub data Call : Type 0 where
  puts : String → String → Call
  gets : String → Call

unfoldable pub run_calls : LruCache → List Call → Run (LruCache × List String)
unfolding put get
run_calls c [] = ok (c, [])
run_calls c (puts key value ∷ calls) =
    put c key value >>= λ (c', v). run_calls c' calls >>= λ (c'', vs). ok (c'', v ∷ vs)
run_calls c (gets key ∷ calls) =
    get c key >>= λ (c', v). run_calls c' calls >>= λ (c'', vs). ok (c'', v ∷ vs)

-- The same calls on the keys with their values, the most recently used one first.
unfoldable pub model_calls :
    ℕ → List (String × String) → List Call → List (String × String) × List String
unfolding put_model get_model
model_calls capacity l [] = (l, [])
model_calls capacity l (puts key value ∷ calls) =
    let (l', vs) = model_calls capacity (put_model capacity l key value) calls in (l', value ∷ vs)
model_calls capacity l (gets key ∷ calls) =
    let (l', v) = get_model l key in let (l'', vs) = model_calls capacity l' calls in (l'', v ∷ vs)

-- The loop of `Show` goes through the nodes of the list and ends.
show_from-counts :
    (fuel : ℕ) (m : ℕ → LruNode) (p : Option ℕ) (xs : List ℕ) (count : ℕ)
    → length xs ≤ fuel
    → Linked m p xs none
    → show_from fuel m (first_or xs none) count ≡ ok (count + length xs)
unfolding show_from
show_from-counts fuel m p [] count enough l = ap ok (omega arith)
show_from-counts zero m p (x ∷ xs) count enough l = elim enough [ ]
show_from-counts (suc fuel) m p (x ∷ xs) count enough (before, after, l) =
    rw after (show_from-counts fuel m (some x) xs (suc count) (omega arith) l ∙ ap ok (omega arith))

pub show-counts :
    (capacity : ℕ) (l : List (String × String)) (c : LruCache)
    → Models capacity l c
    → show capacity c ≡ ok (suc (length l))
unfolding show
show-counts capacity l c s =
    let size : length l ≡ length s.nodes =
      ap length (sym s.shown) ∙ length-entries c.memory s.nodes in
    ap (λ p. show_from capacity c.memory p 1) s.ranked.mfu
    ∙ show_from-counts capacity c.memory none s.nodes 1 s.fits s.ranked.linked
    ∙ ap ok (omega (arith, size))

-- What the calls leave and give back.
pub record Followed (capacity : ℕ) (l : List (String × String)) (calls : List Call)
    (r : LruCache × List String) : Type 0 where
  pub models : Models capacity (model_calls capacity l calls).0 r.0
  pub replies : r.1 ≡ (model_calls capacity l calls).1

pub run_calls-Followed :
    (capacity : ℕ) (l : List (String × String)) (c : LruCache) (calls : List Call)
    → 0 < capacity
    → Models capacity l c
    → Returns (Followed capacity l calls) (run_calls c calls)
unfolding run_calls model_calls
run_calls-Followed capacity l c [] some_room s = returns (record { models = s; replies = refl })
run_calls-Followed capacity l c (puts key value ∷ calls) some_room s =
    Returns-bind (put-Follows capacity l c key value some_room s) λ (c', v) (s', e).
      Returns-bind
        (run_calls-Followed capacity (put_model capacity l key value) c' calls some_room s')
        λ (c'', vs) f. returns (record { models = f.models; replies = rw (e, f.replies) refl })
run_calls-Followed capacity l c (gets key ∷ calls) some_room s =
    Returns-bind (get-Follows capacity l c key s) λ (c', v) (s', e).
      Returns-bind (run_calls-Followed capacity (get_model l key).0 c' calls some_room s')
        λ (c'', vs) f. returns (record { models = f.models; replies = rw (e, f.replies) refl })

new-Models : (capacity : ℕ) → Models capacity [] (new_lru_cache (pos capacity))
unfolding has
new-Models capacity = record {
  nodes = [];
  ranked = record {
    linked = _;
    distinct = _;
    mfu = refl;
    lru = refl;
    listed = λ k a e. ground (arith, e);
    found = λ a m. ground (arith, m);
    made = λ a m. ground (arith, m);
    counted = refl;
  };
  shown = refl;
  limit = refl;
  fits = omega arith;
}

-- On a new cache with a capacity above 0 every sequence of calls of Put and Get returns (no nil
-- pointer is followed, and the node to evict is there), each call gives back what it gives back on
-- the list of keys with values in the order of their last use, from which a Put of a new key drops
-- the last one when the list is as long as the capacity, the linked nodes and the map stand for that
-- list, and Show ends after as many rounds as the list has entries.
pub new_lru_cache-Followed :
    (capacity : ℕ) (calls : List Call)
    → 0 < capacity
    → Returns
        (λ r.
          Followed capacity [] calls r
          × (show capacity r.0 ≡ ok (suc (length (model_calls capacity [] calls).0))))
        (run_calls (new_lru_cache (pos capacity)) calls)
new_lru_cache-Followed capacity calls some_room =
    Returns-map
      (run_calls-Followed capacity [] (new_lru_cache (pos capacity)) calls some_room
        (new-Models capacity))
      λ (c, vs) f. (f, show-counts capacity (model_calls capacity [] calls).0 c f.models)
