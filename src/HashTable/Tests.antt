-- ===== src/HashTable/Tests.antt =====
-- A table with a few pointers.
use notbit.Common.{◌≡◌, [], ◌∷◌, ◌++◌, List, none, replicate}
use notbit.HashTable.{new}
use notbit.HashTable.Counting.{IsCounted, after, after-IsCounted}
use notbit.HashTable.Runs.{Call, setting, removing, getting, answers, model_answers, answers-model}

-- Setting two pointers in one chain, setting the first again, and removing it twice.
abbrev calls : List Call
calls =
    setting 1
    ∷ setting 2
    ∷ setting 1
    ∷ removing 1
    ∷ getting (replicate 31 7 ++ (2 ∷ []))
    ∷ removing 1
    ∷ getting (replicate 31 7 ++ (1 ∷ []))
    ∷ []

answers-model_example :
    answers (λ p. replicate 31 7 ++ (p ∷ [])) calls new
    ≡ model_answers (λ p. replicate 31 7 ++ (p ∷ [])) calls (λ _. none)
answers-model_example = answers-model (λ p. replicate 31 7 ++ (p ∷ [])) calls

after-IsCounted_example : IsCounted (after (λ p. replicate 31 7 ++ (p ∷ [])) calls new)
after-IsCounted_example = after-IsCounted (λ p. replicate 31 7 ++ (p ∷ [])) calls
