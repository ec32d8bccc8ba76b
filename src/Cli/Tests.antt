-- ===== src/Cli/Tests.antt =====
-- Lines at the prompt, on a disk with a file of two blocks.
use pp.Prelude.{◌≡◌, refl, false, none, some, arith, Returns}
use pp.Text.{codes, split}
use pp.Bio.Mock.{mock_disk}
use pp.Bio.Mock.AsLocal.{mock_local}
use pp.Inode.Tests.{two_blocks, one_coding}
use pp.Fs.Tests.{with_log, with_log-Says, with_log-Idle, with_log-Writable}
use pp.Cli.Words.{without_newlines}
use pp.Cli.{Cli, not_in, run_writei, command, run_words, run_line, run_lines}
use pp.Cli.Kept.{Kept}
use pp.Cli.Refused.{run_line-Kept}
use pp.Cli.Session.{session, answers, run_lines-session}

abbrev at_prompt : Cli
at_prompt = record {
  in_txn = false;
  txn = none;
  fs = record { rooti = 0; fd_table = λ n. none; max_fd = 0 };
}

outside :
    run_line mock_disk one_coding 200 (codes "writei 7 0 x") at_prompt with_log
    ≡ some (with_log, at_prompt, not_in)
unfolding run_line run_words command run_writei without_newlines split
outside = refl

run_line-Kept_example : Kept at_prompt with_log (with_log, at_prompt, not_in)
run_line-Kept_example =
    run_line-Kept mock_disk one_coding 200 (codes "writei 7 0 x") at_prompt with_log
      (with_log, at_prompt, not_in) refl outside

run_lines-session_example :
    Returns
      (run_lines mock_disk one_coding 200 (session 7 4094 (codes "xyz")) at_prompt with_log)
      (λ r. (r.1 ≡ at_prompt) × (r.2 ≡ answers (codes "xyz")))
run_lines-session_example =
    run_lines-session mock_local one_coding 199 0 7 4094 (codes "xyz") two_blocks at_prompt with_log
      (omega arith) refl refl (omega arith, omega arith) (with_log-Writable _) with_log-Idle
      with_log-Says
