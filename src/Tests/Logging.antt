-- ===== src/Tests/Logging.antt =====
-- Witnesses for the loggers.
use funkyd.Base.{◌*◌, ◌≡◌, refl, true, Option, none, some, [], ◌∷◌, ◌++◌, length, if◌then◌else◌}
use funkyd.Base.Int.{pos, leb_int}
use funkyd.Base.Text.{Text, codes}
use funkyd.Base.Time.{millisecond}
use funkyd.Base.Map.{Map, insert}
use funkyd.Log.{
  stderr, stdout, Logger, LogMessage, Printers, Output, DnsPrinters, level_to_string, parse_keys,
  prints, print_entry, log, log_query,
}
use funkyd.Log.Levels.{log_mono}
use funkyd.Log.Queries.{length-log_query}
use funkyd.Tests.Serving.{heap, answer}

abbrev printers : Printers
printers = record {
  marshal = λ context. some (codes "{}");
  show_map = λ context. [];
  show_logger = λ l. [];
}

abbrev quiet : Logger
quiet = record { level = pos 2; handle = some stderr }

abbrev verbose : Logger
verbose = record { level = pos 5; handle = some stderr }

abbrev message : LogMessage
message = record {
  level = pos 1;
  context = some ((codes "what", codes "starting") ∷ []);
  debug_details = none;
}

abbrev line : Output
line = (stderr, codes "{}" ++ codes "\n")

abbrev left_behind : Map Text
left_behind =
    insert (codes "when") (codes "now")
      (insert (codes "level") (level_to_string (pos 1)) ((codes "what", codes "starting") ∷ []))

quiet-logs : log printers (codes "now") quiet message ≡ some (line ∷ [], some left_behind)
unfolding log prints print_entry parse_keys
quiet-logs = refl

verbose_higher : leb_int quiet.level verbose.level ≡ true
verbose_higher = refl

log_mono_example :
    (after : Option (Map Text)) × (log printers
        (codes "now")
        verbose
        (record message { debug_details = some (codes "more") })
      ≡ some (line ∷ [], after))
log_mono_example =
    log_mono printers (codes "now") quiet verbose message (some (codes "more")) line []
      (some left_behind) refl verbose_higher quiet-logs

abbrev dns_printers : DnsPrinters
dns_printers = record {
  show_type = λ n. codes "A";
  show_opcode = λ m. codes "QUERY";
  show_rr = λ rr. codes "a. 10 IN A 127.0.0.1";
  show_duration = λ d. codes "30ms";
}

abbrev query_logger : Logger
query_logger = record { level = pos 5; handle = some stdout }

length-log_query_example :
    length (
      log_query printers dns_printers query_logger heap
        (codes "cache")
        (30 * millisecond)
        answer
        (λ q p. codes "now"))
    ≡ (if prints query_logger (pos 0) then length answer.question * length answer.answer else 0)
length-log_query_example =
    length-log_query printers dns_printers query_logger heap (codes "cache") (30 * millisecond)
      answer (λ q p. codes "now")
