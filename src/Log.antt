-- ===== src/Log.antt =====
-- log.go: the structured logger, and the logging of queries in server.go.
pub mod Levels
pub mod Queries
use funkyd.Base.{
  ℕ, zero, suc, ◌+◌, Bool, true, false, ◌&&◌, Option, none, some, List, [], ◌∷◌, ◌++◌, ◌==◌,
  if◌then◌else◌,
}
use funkyd.Base.Int.{ℤ, pos, negsuc, leb_int}
use funkyd.Base.Text.{Text, codes, text_eq}
use funkyd.Base.Time.{Duration}
use funkyd.Base.Map.{Map, insert, is_some}
use funkyd.Config.{Configuration, LogConfig}
use funkyd.Dns.{Msg, Heap, Question, Ref, Rr}

-- A file to log to; `dev_null` is opened for reading only.
pub data Handle : Type 0 where
  dev_null : Handle
  stderr : Handle
  stdout : Handle
  opened : ℕ → Handle

pub record Logger : Type 0 where
  pub level : ℤ
  pub handle : Option Handle

-- `context` is a Go map, `none` the nil one; `debug_details` the text of the callback, if there is
-- one.
pub record LogMessage : Type 0 where
  pub level : ℤ
  pub context : Option (Map Text)
  pub debug_details : Option Text

-- json.Marshal, and what fmt prints of a map and of a logger.
pub record Printers : Type 0 where
  pub marshal : Map Text → Option Text
  pub show_map : Map Text → Text
  pub show_logger : Logger → Text

-- What is written: where, and the line.
abbrev pub Output : Type 0
Output = Handle × Text

abbrev pub debug : ℤ
debug = pos 5

unfoldable pub level_to_string : ℤ → Text
level_to_string (negsuc n) = codes "UNDEFINED"
level_to_string (pos n) =
    if n == 1
    then codes "CRITICAL"
    else if n == 2
    then codes "ERROR"
    else if n == 3
    then codes "WARNING"
    else if n == 4
    then codes "INFO"
    else if n == 5
    then codes "DEBUG"
    else codes "UNDEFINED"

unfoldable pub new_log_message : ℤ → Map Text → Option Text → LogMessage
new_log_message level context details = record {
  level = level;
  context = some context;
  debug_details = details;
}

-- The method has a copy of the logger to set the level of.
unfoldable pub set_level : ℤ → Logger → Logger
set_level level l = l

-- `formatted` is what fmt.Sprintf makes of the arguments.
unfoldable pub sprintf : Logger → ℤ → Text → Text
sprintf l level formatted =
    if leb_int level l.level then formatted else codes "[message suppressed by log system]"

unfoldable pub parse_keys : Printers → Map Text → Text
parse_keys pr context = elim (pr.marshal context) [
  | none ↦ codes "could not marshal [" ++ (pr.show_map context ++ codes "] to JSON")
  | some output ↦ output
]

unfoldable pub prints : Logger → ℤ → Bool
prints l level = is_some l.handle && leb_int level l.level

-- Log, once it is to print: the line, and the context that it leaves behind.
unfoldable pub print_entry :
    Printers → Text → Logger → ℤ → Map Text → Option Text → List Output × Map Text
unfolding parse_keys level_to_string
print_entry pr when l level context details =
    let entry =
      insert (codes "when") when (insert (codes "level") (level_to_string level) context) in
    let output = parse_keys pr entry in
    let detailed : Map Text = elim details [
      | none ↦ entry
      | some d ↦ insert (codes "debug") d entry
    ] in
    (
      elim l.handle [ none ↦ [] | some h ↦ (h, output ++ codes "\n") ∷ [] ],
      if leb_int debug l.level then detailed else entry,
    )

-- What is written, and the context afterwards; `none` is the panic of a write to a nil map. `when` is
-- the time, printed.
unfoldable pub log :
    Printers → Text → Logger → LogMessage → Option (List Output × Option (Map Text))
unfolding prints print_entry
log pr when l m =
    if prints l m.level
    then elim m.context [
      | none ↦ none
      | some context ↦
          let (outputs, after) = print_entry pr when l m.level context m.debug_details in
          some (outputs, some after)
    ]
    else some ([], m.context)

-- The files that can be opened: the null device, and others by their location.
pub record Files : Type 0 where
  pub null_opens : Bool
  pub open_file : Text → Option ℕ

unfoldable pub get_logger_handle : Files → Text → Option Handle
get_logger_handle files location =
    if text_eq location []
    then if files.null_opens then some dev_null else none
    else if text_eq location (codes "/dev/stderr")
    then some stderr
    else if text_eq location (codes "/dev/stdout")
    then some stdout
    else elim (files.open_file location) [ none ↦ none | some f ↦ some (opened f) ]

-- The two global loggers.
pub record Loggers : Type 0 where
  pub server : Logger
  pub query : Logger

-- A message whose context is not nil.
unfoldable pub log_context : Printers → Text → Logger → ℤ → Map Text → Option Text → List Output
unfolding prints print_entry
log_context pr when l level context details =
    if prints l level then (print_entry pr when l level context details).0 else []

-- The loggers afterwards, what has been written, and whether there was no error.
unfoldable pub init_loggers :
    Printers → Files → (ℕ → Text) → Configuration → Loggers → Loggers × List Output × Bool
unfolding level_to_string sprintf get_logger_handle log_context
init_loggers pr files when config loggers =
    elim (get_logger_handle files config.server_log.location) [
      | none ↦ (loggers, [], false)
      | some handle ↦
          let l : Logger = record { level = config.server_log.level; handle = some handle } in
          let what =
            codes "initialized new server logger at level ["
            ++ (level_to_string l.level ++ codes "]") in
          let server_line =
            log_context pr (when 0) l (pos 4) ((codes "what", what) ∷ [])
              (some (pr.show_logger l)) in
          elim (get_logger_handle files config.query_log.location) [
            | none ↦ (record loggers { server = l }, server_line, false)
            | some query_handle ↦
                let ql : Logger = record { level = debug; handle = some query_handle } in
                let context =
                  (codes "what", codes "initialized new query logger")
                  ∷ (codes "logger", sprintf l debug (pr.show_logger ql))
                  ∷ [] in
                (
                  record { server = l; query = ql },
                  server_line ++ log_context pr (when 1) l (pos 4) context none,
                  true,
                )
          ]
    ]

-- What the libraries print of a message's parts.
pub record DnsPrinters : Type 0 where
  pub show_type : ℕ → Text
  pub show_opcode : Msg → Text
  pub show_rr : Rr → Text
  pub show_duration : Duration → Text

-- The last of the parts of strings.Split(s, " ").
unfoldable pub last_part : Text → Text → Text
last_part part [] = part
last_part part (b ∷ s) = last_part (if b == b' ' then [] else part ++ b ∷ []) s

unfoldable pub query_context :
    DnsPrinters → Heap → Text → Duration → Msg → Question → Ref → Map Text
unfolding last_part
query_context dp h source duration response q p =
    (codes "name", q.name)
    ∷ (codes "type", dp.show_type q.qtype)
    ∷ (codes "opcode", dp.show_opcode response)
    ∷ (codes "answer", last_part [] (dp.show_rr (h p)))
    ∷ (codes "answerSource", codes "[" ++ (source ++ codes "]"))
    ∷ (codes "duration", dp.show_duration duration)
    ∷ []

module _ (pr : Printers) (dp : DnsPrinters) (ql : Logger) (h : Heap) (source : Text)
    (duration : Duration) (response : Msg) where
  -- The inner loop of logQuery, over the answers. The messages have no level, which is 0.
  unfoldable pub log_answers : (Ref → Text) → Question → List Ref → List Output
  unfolding query_context log_context
  log_answers when q [] = []
  log_answers when q (p ∷ ps) =
      log_context pr (when p) ql (pos 0) (query_context dp h source duration response q p) none
      ++ log_answers when q ps

  -- The outer loop, over the questions. `when q p` is the time of the message of q and p, printed.
  unfoldable pub log_questions : (Question → Ref → Text) → List Question → List Output
  unfolding log_answers
  log_questions when [] = []
  log_questions when (q ∷ qs) = log_answers (when q) q response.answer ++ log_questions when qs

  unfoldable pub log_query : (Question → Ref → Text) → List Output
  unfolding log_questions
  log_query when = log_questions when response.question
