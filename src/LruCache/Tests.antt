-- ===== src/LruCache/Tests.antt =====
-- The cache of LRU cache/main.go on concrete calls.
use low_level_design_in_go.Base.{ℕ, suc, ◌≡◌, refl, String, List, [], ◌∷◌, ◌++◌, length, arith}
use low_level_design_in_go.Base.Int.{pos}
use low_level_design_in_go.Base.Run.{Run, ok, panic, ◌>>=◌, Returns}
use low_level_design_in_go.LruCache.{LruCache, new_lru_cache, show, write, delete_key, insert_key}
use low_level_design_in_go.LruCache.Histories.{
  Call, puts, gets, run_calls, model_calls, Followed, new_lru_cache-Followed,
}

abbrev three : List Call
three = puts "a" "1" ∷ puts "b" "2" ∷ puts "c" "3" ∷ []

abbrev replies : Run (LruCache × List String) → Run (List String)
replies r = r >>= λ (c, vs). ok vs

abbrev then_show : Run (LruCache × List String) → Run ℕ
then_show r = r >>= λ (c, vs). show 9 c

-- A read of the middle and then of the last node moves each to the front; the next two keys put out
-- the two that were read least recently.
abbrev moves : List Call
moves =
    three ++ gets "b" ∷ gets "a" ∷ puts "d" "4" ∷ puts "e" "5" ∷ gets "a" ∷ gets "b" ∷ gets "c" ∷ []

moves_run :
    replies (run_calls (new_lru_cache (pos 3)) moves)
    ≡ ok ("1" ∷ "2" ∷ "3" ∷ "2" ∷ "1" ∷ "4" ∷ "5" ∷ "1" ∷ "NOT FOUND" ∷ "NOT FOUND" ∷ [])
unfolding run_calls write delete_key insert_key
moves_run = refl

shows_run : then_show (run_calls (new_lru_cache (pos 3)) (three ++ puts "a" "9" ∷ [])) ≡ ok 4
unfolding run_calls show write insert_key
shows_run = refl

-- A cache without room panics on its first key: there is no node to evict.
no_room : run_calls (new_lru_cache (pos 0)) (puts "a" "1" ∷ []) ≡ panic
unfolding run_calls
no_room = refl

new_lru_cache-Followed_example :
    Returns
      (λ r. Followed 3 [] moves r × (show 3 r.0 ≡ ok (suc (length (model_calls 3 [] moves).0))))
      (run_calls (new_lru_cache (pos 3)) moves)
new_lru_cache-Followed_example = new_lru_cache-Followed 3 moves (omega arith)
