-- ===== src/Commands/Dispatcher/Examples.antt =====
-- src/commands/dispatcher.cpp: runs of the dispatcher on handlers that answer argv and count.
use gredis.Base.Bytes.{Bytes, codes, bytes_eq}
use gredis.Base.{ℕ, ◌≡◌, refl, List, [], ◌∷◌, ◌+◌, ◌++◌}
use gredis.Commands.Dispatcher.Answers.{Dispatched, dispatch-Dispatched}
use gredis.Commands.Dispatcher.{
  Handler, dispatch, answer, find_command, find_spec, commands, lowered, arity_ok, wrong_arity,
  unknown_command,
}

abbrev joined : List Bytes → Bytes
joined [] = []
joined (a ∷ args) = a ++ joined args

abbrev count_run : Handler → List Bytes → ℕ → Bytes × ℕ
count_run handler argv n = (joined argv, n + 1)

dispatch_runs :
    (dispatch count_run (codes "GeT") (codes "k" ∷ []) 4 ≡ (codes "GeTk", 5))
    × (dispatch count_run (codes "gets") (codes "k" ∷ []) 4
        ≡ (unknown_command (codes "gets") (codes "k" ∷ []), 4))
    × (dispatch count_run (codes "get") [] 4 ≡ (wrong_arity (codes "get"), 4))
    × (dispatch count_run (codes "ping") [] 4 ≡ (codes "ping", 5))
unfolding dispatch answer find_command find_spec commands lowered arity_ok bytes_eq
dispatch_runs = (refl, refl, refl, refl)

dispatch-Dispatched_example :
    Dispatched count_run
      (codes "GeT")
      (codes "k" ∷ [])
      4
      (dispatch count_run (codes "GeT") (codes "k" ∷ []) 4)
dispatch-Dispatched_example = dispatch-Dispatched count_run (codes "GeT") (codes "k" ∷ []) 4
