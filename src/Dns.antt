-- ===== src/Dns.antt =====
-- The parts of github.com/miekg/dns that the program reads and writes: the fields of a message, of
-- a question and of a resource record. A message holds its records by reference, so the records
-- stand in a heap that all messages share.
use funkyd.Base.{ℕ, Bool, false, List, [], ◌==◌, if◌then◌else◌}
use funkyd.Base.Text.{Text}

pub record Question : Type 0 where
  pub name : Text
  pub qtype : ℕ

-- A resource record: three fields of its header, and its data.
pub record Rr : Type 0 where
  pub name : Text
  pub rrtype : ℕ
  pub ttl : ℕ
  pub rdata : Text

abbrev pub Ref : Type 0
Ref = ℕ

abbrev pub Heap : Type 0
Heap = Ref → Rr

abbrev pub write : Heap → Ref → Rr → Heap
write h p rr q = if q == p then rr else h q

pub record Msg : Type 0 where
  pub rcode : ℕ
  pub authoritative : Bool
  pub recursion_desired : Bool
  pub recursion_available : Bool
  pub question : List Question
  pub answer : List Ref

-- dns.Msg{}
abbrev pub empty_msg : Msg
empty_msg = record {
  rcode = 0;
  authoritative = false;
  recursion_desired = false;
  recursion_available = false;
  question = [];
  answer = [];
}
