-- ===== src/Log/Levels.antt =====
-- Which messages are written, and what of them.
use funkyd.Base.{
  ◌≡◌, refl, inl, inr, true, Option, some, List, ◌∷◌, arith, Bool-cases, Option-cases,
}
use funkyd.Base.Int.{ℤ, leb_int, leb_int_trans}
use funkyd.Base.Text.{Text}
use funkyd.Base.Map.{Map}
use funkyd.Log.{Logger, LogMessage, Printers, Output, prints, print_entry, log}

prints_mono :
    (l l' : Logger) (level : ℤ)
    → l'.handle ≡ l.handle
    → leb_int l.level l'.level ≡ true
    → prints l level ≡ true
    → prints l' level ≡ true
unfolding prints
prints_mono l l' level same higher e = ground (arith, leb_int_trans level l.level l'.level)

print_entry-debug_details :
    (pr : Printers) (when : Text) (l l' : Logger) (level : ℤ) (context : Map Text)
    (details details' : Option Text)
    → l'.handle ≡ l.handle
    → (print_entry pr when l' level context details').0
      ≡ (print_entry pr when l level context details).0
unfolding print_entry
print_entry-debug_details pr when l l' level context details details' same = rw same refl

-- A logger that writes a message still writes the same lines for it when its level is raised and
-- its handle kept, whatever the debug details of the message.
pub log_mono :
    (pr : Printers) (when : Text) (l l' : Logger) (m : LogMessage) (details : Option Text)
    (line : Output) (lines : List Output) (after : Option (Map Text))
    → l'.handle ≡ l.handle
    → leb_int l.level l'.level ≡ true
    → log pr when l m ≡ some (line ∷ lines, after)
    → (after' : Option (Map Text)) × (log pr when l' (record m { debug_details = details })
        ≡ some (line ∷ lines, after'))
unfolding log
log_mono pr when l l' m details line lines after same higher e =
    elim (Bool-cases (prints l m.level)) [
      | inr silent ↦ ground arith
      | inl shown ↦
          let shown' = prints_mono l l' m.level same higher shown in
          elim (Option-cases m.context) [
            | inl nil ↦ ground arith
            | inr (context, e') ↦ (
              some (print_entry pr when l' m.level context details).1,
              ground (
                arith,
                print_entry-debug_details pr when l l' m.level context m.debug_details details same,
              ),
            )
          ]
    ]
