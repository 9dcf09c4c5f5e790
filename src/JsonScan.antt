-- ===== src/JsonScan.antt =====
-- src/json_scan.rs: the incremental reader of a JSON request body with one large string member.
-- This file holds the reader's state; the children hold its steps. A byte string is a list of
-- numbers below 256, and `usize` and `u64` counters are ℕ.
pub mod Structure
pub mod Text
pub mod Feed
pub mod ByByte
pub mod Body
pub mod Chunks
pub mod Payload
pub mod Bounds
use remarkable_server.Base.{ℕ, Bool, false, Option, none, some, List, [], ◌∷◌, map, String, Bytes}

-- `MAX_DEPTH`: serde_json refuses the 128th nested container.
abbrev pub max_depth : ℕ
max_depth = 127

-- `MAX_NUMBER`
abbrev pub max_number : ℕ
max_number = 4096

-- `KEY_CAP`
abbrev pub key_cap : ℕ
key_cap = 64

-- `enum Member`; the text is kept as its UTF-8 bytes.
pub data Member : Type 0 where
  absent not_string : Member
  text : Bytes → Member
  too_long : Member

-- `Member::as_str`
unfoldable pub as_str : Member → Option Bytes
as_str (Member.text s) = some s
as_str _ = none

-- `enum Streamed`
pub data Streamed : Type 0 where
  absent not_string text : Streamed

pub record Scanned : Type 0 where
  pub captured : List Member
  pub streamed : Streamed

pub record Output : Type 0 where
  pub restart : Bool
  pub bytes : Bytes

-- `Output::default()`
abbrev pub no_output : Output
no_output = record { restart = false; bytes = [] }

pub data ScanError : Type 0 where
  syntax : ℕ → String → ScanError
  too_long : String → ScanError

-- `enum Fail`: an error that `feed` still has to place.
pub data Fail : Type 0 where
  syntax too_long : String → Fail

pub data State : Type 0 where
  value array_start object_start key colon after_value str number literal end : State

pub data Container : Type 0 where
  object array : Container

pub data Role : Type 0 where
  key streamed : Role
  captured : ℕ → Role
  skipped : Role

pub data Target : Type 0 where
  streamed : Target
  captured : ℕ → Target
  other : Target

-- `enum Esc`: `hex n digits lead` and `low lead backslash`.
pub data Esc : Type 0 where
  plain backslash : Esc
  hex : ℕ → ℕ → Option ℕ → Esc
  low : ℕ → Bool → Esc

-- `struct JsonScanner`; the stack has the innermost container first.
pub record Scanner : Type 0 where
  pub streamed_key : Bytes
  pub capture_keys : List Bytes
  pub capture_cap : ℕ
  pub state : State
  pub stack : List Container
  pub offset : ℕ
  pub role : Role
  pub esc : Esc
  pub utf8_need : ℕ
  pub utf8_lo : ℕ
  pub utf8_hi : ℕ
  pub key : Bytes
  pub key_long : Bool
  pub first_key : Bool
  pub member : Target
  pub text : Bytes
  pub text_long : Bool
  pub number : Bytes
  pub literal : Bytes
  pub captured : List Member
  pub streamed : Streamed

-- `JsonScanner::new`
unfoldable pub new : Bytes → List Bytes → ℕ → Scanner
new streamed_key capture_keys capture_cap = record {
  streamed_key = streamed_key;
  capture_keys = capture_keys;
  capture_cap = capture_cap;
  state = State.value;
  stack = [];
  offset = 0;
  role = Role.skipped;
  esc = Esc.plain;
  utf8_need = 0;
  utf8_lo = 0x80;
  utf8_hi = 0xBF;
  key = [];
  key_long = false;
  first_key = false;
  member = Target.other;
  text = [];
  text_long = false;
  number = [];
  literal = [];
  captured = map (λ k. Member.absent) capture_keys;
  streamed = Streamed.absent;
}
