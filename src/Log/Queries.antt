-- ===== src/Log/Queries.antt =====
-- How many lines a query leaves in the query log.
use funkyd.Base.{
  ◌*◌, ◌≡◌, inl, inr, Option, none, List, [], ◌∷◌, arith, Bool-cases, if◌then◌else◌, length,
  length-append,
}
use funkyd.Base.Int.{ℤ, pos}
use funkyd.Base.Text.{Text}
use funkyd.Base.Time.{Duration}
use funkyd.Base.Map.{Map}
use funkyd.Dns.{Msg, Heap, Question, Ref}
use funkyd.Log.{
  Logger, Printers, DnsPrinters, prints, print_entry, log_context, query_context, log_answers,
  log_questions, log_query,
}

length-log_context :
    (pr : Printers) (when : Text) (l : Logger) (level : ℤ) (context : Map Text)
    (details : Option Text)
    → length (log_context pr when l level context details) ≡ (if prints l level then 1 else 0)
unfolding log_context prints print_entry
length-log_context pr when l level context details = ground arith

module _ (pr : Printers) (dp : DnsPrinters) (ql : Logger) (h : Heap) (source : Text)
    (duration : Duration) (response : Msg) where
  length-log_answers :
      (when : Ref → Text) (q : Question) (ps : List Ref)
      → length (log_answers pr dp ql h source duration response when q ps)
        ≡ (if prints ql (pos 0) then length ps else 0)
  unfolding log_answers
  length-log_answers when q [] = ground arith
  length-log_answers when q (p ∷ ps) =
      rw
        (
          length-append
              (log_context pr (when p) ql (pos 0) (query_context dp h source duration response q p)
                none)
              (log_answers pr dp ql h source duration response when q ps),
          length-log_context pr (when p) ql (pos 0)
              (query_context dp h source duration response q p) none,
          length-log_answers when q ps,
        )
        (elim (Bool-cases (prints ql (pos 0))) [
          | inl e ↦ rw e (omega arith)
          | inr e ↦ rw e (omega arith)
        ])

  length-log_questions :
      (when : Question → Ref → Text) (qs : List Question)
      → length (log_questions pr dp ql h source duration response when qs)
        ≡ (if prints ql (pos 0) then length qs * length response.answer else 0)
  unfolding log_questions
  length-log_questions when [] = ground arith
  length-log_questions when (q ∷ qs) =
      rw
        (
          length-append (log_answers pr dp ql h source duration response (when q) q response.answer)
              (log_questions pr dp ql h source duration response when qs),
          length-log_answers (when q) q response.answer,
          length-log_questions when qs,
        )
        (elim (Bool-cases (prints ql (pos 0))) [
          | inl e ↦ rw e (omega arith)
          | inr e ↦ rw e (omega arith)
        ])

  -- logQuery writes one line for each pair of a question and an answer of the response, if the
  -- query logger is initialised and its level is not negative, and nothing otherwise: nothing for a
  -- failure or an empty answer.
  pub length-log_query :
      (when : Question → Ref → Text)
      → length (log_query pr dp ql h source duration response when)
        ≡ (if prints ql (pos 0) then length response.question * length response.answer else 0)
  unfolding log_query
  length-log_query when = length-log_questions when response.question
