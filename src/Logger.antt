-- ===== src/Logger.antt =====
-- fs_logger.h and fs_logger.cpp: the log levels and their names, the manager with its destination,
-- and the stream that gathers one message. The time stamp and the thread's number, which come from
-- the driver library and the system, are an argument. What is written is a list of messages.
pub mod Laws
use mgridfs.Base.{
  ℕ, Bool, true, false, ◌&&◌, Option, none, some, List, [], ◌∷◌, ◌++◌, leb, ◌==◌, if◌then◌else◌,
  Name, bytes, name_eq,
}

pub data LogLevel : Type 0 where
  ll_invalid ll_trace ll_debug ll_info ll_warn ll_error ll_fatal ll_none : LogLevel

-- The value of the enumerator.
abbrev pub level : LogLevel → ℕ
level ll_invalid = 0
level ll_trace = 1
level ll_debug = 2
level ll_info = 3
level ll_warn = 4
level ll_error = 5
level ll_fatal = 6
level ll_none = 7

abbrev pub invalid_str : Name
invalid_str = bytes "INVALID"

-- The pairs of `logLevelToStringMap`, in the order in which the manager's constructor inserts them.
abbrev pub level_names : List (LogLevel × Name)
level_names =
    (ll_invalid, invalid_str)
    ∷ (ll_trace, bytes "TRACE")
    ∷ (ll_debug, bytes "DEBUG")
    ∷ (ll_info, bytes "INFO")
    ∷ (ll_warn, bytes "WARN")
    ∷ (ll_error, bytes "ERROR")
    ∷ (ll_fatal, bytes "FATAL")
    ∷ (ll_none, bytes "NONE")
    ∷ []

unfoldable pub find_level : LogLevel → List (LogLevel × Name) → Name
find_level l [] = invalid_str
find_level l ((k, s) ∷ t) = if level k == level l then s else find_level l t

unfoldable pub find_name : Name → List (LogLevel × Name) → LogLevel
find_name s [] = ll_invalid
find_name s ((k, r) ∷ t) = if name_eq r s then k else find_name s t

unfoldable pub log_level_to_string : LogLevel → Name
unfolding find_level
log_level_to_string l = find_level l level_names

unfoldable pub string_to_log_level : Name → LogLevel
unfolding find_name
string_to_log_level s = find_name s level_names

-- Where messages go: the console, or the log file of that name.
pub data Sink : Type 0 where
  console : Sink
  log_file : Name → Sink

pub record Manager : Type 0 where
  pub ll : LogLevel
  pub log_destination : Option Name

abbrev pub Log : Type 0
Log = List (Sink × Name)

-- The constructor of `FSLogManager`.
abbrev pub new_manager : Manager
new_manager = record { ll = ll_trace; log_destination = none }

unfoldable pub set_log_level : LogLevel → Manager → Manager
set_log_level l m = record m { ll = l }

unfoldable pub register_destination : Option Name → Manager → Bool × Manager
register_destination d m = (true, record m { log_destination = d })

abbrev pub sink : Option Name → Sink
sink none = console
sink (some f) = log_file f

-- `FSLogManager::logAll`, with `FSLogFile::logAll` or the console behind it.
unfoldable pub log_all : Manager → LogLevel → Name → Log → Bool × Log
log_all m l message log = (
  true,
  (if leb (level m.ll) (level l) then log ++ (sink m.log_destination, message) ∷ [] else log),
)

pub record Stream : Type 0 where
  pub ll : LogLevel
  pub enabled_ll : LogLevel
  pub dirty : Bool
  pub os : Option Name

-- `FSLogStream(ll)`: the level that is enabled is read once, here.
unfoldable pub new_stream : Manager → LogLevel → Stream
new_stream m l = record { ll = l; enabled_ll = m.ll; dirty = false; os = none }

-- The copy constructor takes the levels only.
unfoldable pub copy_stream : Stream → Stream
copy_stream s = record { ll = s.ll; enabled_ll = s.enabled_ll; dirty = false; os = none }

abbrev pub space : Name
space = bytes " "

-- What `stream()` writes first, before the message itself.
abbrev pub header : Name → LogLevel → Name
header stamp l = stamp ++ log_level_to_string l ++ space

abbrev pub opened : Name → LogLevel → Option Name → Name
opened stamp l none = header stamp l
opened stamp l (some text) = text

-- `operator<<`, for a piece that is printed as `piece`; all its overloads do the same.
unfoldable pub put : Name → Name → Stream → Stream
put stamp piece s =
    if leb (level s.enabled_ll) (level s.ll)
    then record s { dirty = true; os = some (opened stamp s.ll s.os ++ piece) }
    else s

abbrev pub emit : Manager → Stream → Option Name → Log → Log
emit m s none log = log
emit m s (some text) log =
    if leb (level s.enabled_ll) (level s.ll) && s.dirty then (log_all m s.ll text log).1 else log

-- The destructor hands the text to the manager.
unfoldable pub close_stream : Manager → Stream → Log → Log
unfolding log_all
close_stream m s log = emit m s s.os log

unfoldable pub put_all : Name → List Name → Stream → Stream
put_all stamp [] s = s
put_all stamp (p ∷ ps) s = put_all stamp ps (put stamp p s)

-- A log statement such as `info() << a << b`, from the stream's start to its end.
unfoldable pub statement : Manager → Manager → Name → LogLevel → List Name → Log → Log
statement before after stamp l pieces log =
    close_stream after (put_all stamp pieces (new_stream before l)) log

-- The constructor of `FSLogFile` tells of the file, with the manager as it is then.
unfoldable pub open_log_file : Manager → Name → Name → Log → Log
unfolding statement
open_log_file m stamp file log =
    statement m m stamp ll_info
      (bytes "Opened MongoDB-GridFS log file {file: " ∷ file ∷ bytes "}" ∷ bytes "\n" ∷ []) log

-- Its destructor, for a file that is open or not.
unfoldable pub close_log_file : Manager → Name → Bool → Log → Log
unfolding statement
close_log_file m stamp is_open log =
    if is_open
    then statement m m stamp ll_info (bytes "Closing MongoDB-GridFS log file" ∷ bytes "\n" ∷ []) log
    else log

-- The destructor of `FSLogManager`.
unfoldable pub drop_manager : Manager → Manager
drop_manager m = record m { log_destination = none }
