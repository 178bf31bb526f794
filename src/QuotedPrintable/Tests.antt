-- ===== src/QuotedPrintable/Tests.antt =====
-- Quoted-printable on concrete inputs.
use notbit.Common.{◌≡◌, true, some}
use notbit.Proto.Types.{codes}
use notbit.QuotedPrintable.{start, decode}
use notbit.QuotedPrintable.Automaton.{run}
use notbit.QuotedPrintable.Refinement.{decode-run}

decode-run_example :
    decode (start 0 true) (codes "a_b=41") ≡ some (run (start 0 true) (codes "a_b=41"))
decode-run_example = decode-run (start 0 true) (codes "a_b=41")
