-- ===== src/Tests/Lookups.antt =====
-- The theorem on tracker searches at a search that is submitted twice, taken, begun and retried.
use filelist_streaming_servi.Base.{
  is_space, ◌≡◌, refl, false, true, none, [], ◌∷◌, Runes, codes, String, List, length,
}
use filelist_streaming_servi.Searches.{
  SearchAnswers, SearchCall, queues, retries, takes, runs, ends, no_searches, perform_calls,
}
use filelist_streaming_servi.Searches.Orderly.{IsOrderly}
use filelist_streaming_servi.Searches.Once.{perform_calls-IsOrderly}

-- A stand-in for the hash, which tells an empty query from the others.
abbrev digest_of : Runes → String
digest_of query = elim query [ [] ↦ "tracker-search:0" | c ∷ rest ↦ "tracker-search:1" ]

abbrev fine : SearchAnswers
fine = record {
  lookup_fails = false;
  read_fails = false;
  reread_fails = false;
  save_fails = false;
  mark_fails = false;
}

-- A submission whose save fails.
abbrev failing : SearchAnswers
failing = record fine { save_fails = true }

abbrev search_calls : List SearchCall
search_calls =
    queues fine 1 false (codes " dune ")
    ∷ queues failing 2 false (codes "dune")
    ∷ takes
    ∷ runs fine 3
    ∷ ends fine 4 none
    ∷ retries fine 5 "tracker-search:1"
    ∷ []

one_query : length ((perform_calls digest_of search_calls no_searches).queue) ≡ 1
unfolding perform_calls is_space
one_query = refl

perform_calls-IsOrderly_example :
    IsOrderly digest_of (perform_calls digest_of search_calls no_searches)
perform_calls-IsOrderly_example =
    perform_calls-IsOrderly digest_of search_calls
      ((refl, refl), ((refl, refl), (tt, ((refl, refl), (refl, ((refl, refl), tt))))))
