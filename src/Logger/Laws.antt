-- ===== src/Logger/Laws.antt =====
-- The names of the levels, and the messages of a log statement.
use mgridfs.Base.{
  ◌≤◌, ◌<◌, ◌≡◌, refl, ap, ◌∙◌, ◌≢◌, true, ◌&&◌, some, List, [], ◌∷◌, ◌++◌, append-nil,
  append_assoc, arith, dec_le, leb, if◌then◌else◌, le→leb, lt→leb, Name, bytes, name_eq, name_eq→eq,
}
use mgridfs.Logger.{
  LogLevel, ll_invalid, ll_trace, ll_debug, ll_info, ll_warn, ll_error, ll_fatal, ll_none, level,
  invalid_str, log_level_to_string, string_to_log_level, Manager, Log, Stream, sink, header, put,
  put_all, new_stream, close_stream, statement,
}

-- Every level is read back from its name.
pub string_to_log_level-log_level_to_string :
    (l : LogLevel) → string_to_log_level (log_level_to_string l) ≡ l
unfolding string_to_log_level log_level_to_string name_eq
string_to_log_level-log_level_to_string ll_invalid = refl
string_to_log_level-log_level_to_string ll_trace = refl
string_to_log_level-log_level_to_string ll_debug = refl
string_to_log_level-log_level_to_string ll_info = refl
string_to_log_level-log_level_to_string ll_warn = refl
string_to_log_level-log_level_to_string ll_error = refl
string_to_log_level-log_level_to_string ll_fatal = refl
string_to_log_level-log_level_to_string ll_none = refl

-- A text that is read as a level other than the invalid one is the name of that level.
pub log_level_to_string-string_to_log_level :
    (s : Name)
    → string_to_log_level s ≢ ll_invalid
    → log_level_to_string (string_to_log_level s) ≡ s
unfolding string_to_log_level log_level_to_string
log_level_to_string-string_to_log_level s h = ground (
  arith,
  name_eq→eq invalid_str s,
  name_eq→eq (bytes "TRACE") s,
  name_eq→eq (bytes "DEBUG") s,
  name_eq→eq (bytes "INFO") s,
  name_eq→eq (bytes "WARN") s,
  name_eq→eq (bytes "ERROR") s,
  name_eq→eq (bytes "FATAL") s,
  name_eq→eq (bytes "NONE") s,
)

abbrev pub concat_all : List Name → Name
concat_all [] = []
concat_all (p ∷ ps) = p ++ concat_all ps

-- Once the first piece is written the stream holds a text, which the other pieces extend.
put_all_open :
    (stamp : Name) (ps : List Name) (l e : LogLevel) (text : Name)
    → level e ≤ level l
    → put_all stamp ps (record { ll = l; enabled_ll = e; dirty = true; os = some text })
      ≡ record { ll = l; enabled_ll = e; dirty = true; os = some (text ++ concat_all ps) }
unfolding put_all put
put_all_open stamp [] l e text h = rw (append-nil text)
put_all_open stamp (p ∷ ps) l e text h =
    rw (le→leb (level e) (level l) h)
      (put_all_open stamp ps l e (text ++ p) h ∙ rw (append_assoc text p (concat_all ps)))

put_all_shut :
    (stamp : Name) (ps : List Name) (s : Stream)
    → level s.ll < level s.enabled_ll
    → put_all stamp ps s ≡ s
unfolding put_all put
put_all_shut stamp [] s h = refl
put_all_shut stamp (p ∷ ps) s h =
    rw (lt→leb (level s.enabled_ll) (level s.ll) h) (put_all_shut stamp ps s h)

put_all_first :
    (stamp : Name) (p : Name) (ps : List Name) (m : Manager) (l : LogLevel)
    → level m.ll ≤ level l
    → put_all stamp (p ∷ ps) (new_stream m l) ≡ record {
      ll = l;
      enabled_ll = m.ll;
      dirty = true;
      os = some (header stamp l ++ concat_all (p ∷ ps));
    }
unfolding put_all put new_stream
put_all_first stamp p ps m l h =
    let on = le→leb (level m.ll) (level l) h in
    rw on (
      put_all_open stamp ps l m.ll (header stamp l ++ p) h
      ∙ rw (append_assoc (header stamp l) p (concat_all ps)))

-- A log statement with at least one piece writes one message, the header and the pieces in order, to
-- the manager's destination, if its level reaches both the level at its start and that at its end;
-- otherwise nothing.
pub statement_lem :
    (before after : Manager) (stamp : Name) (l : LogLevel) (p : Name) (ps : List Name) (log : Log)
    → statement before after stamp l (p ∷ ps) log ≡ (
        if leb (level before.ll) (level l) && leb (level after.ll) (level l)
        then log ++ (sink after.log_destination, header stamp l ++ concat_all (p ∷ ps)) ∷ []
        else log)
unfolding statement close_stream new_stream
statement_lem before after stamp l p ps log = elim (dec_le (level before.ll) (level l)) [
  | yes on ↦
      let e = le→leb (level before.ll) (level l) on in
      rw e (ap (λ s. close_stream after s log) (put_all_first stamp p ps before l on) ∙ rw e)
  | no off ↦
      let e = lt→leb (level before.ll) (level l) (omega arith) in
      rw e (
        ap (λ s. close_stream after s log)
          (put_all_shut stamp (p ∷ ps) (new_stream before l) (omega arith)))
]
