-- ===== src/MutexServer/Threads/Replies.antt =====
-- Whose request each goroutine handles, and who has a reply.
use mathlib.Core.List.{Perm, perm_middle, map}
use mathlib.Core.List.Perm
use funkyd.Base.{ℕ, ◌≡◌, refl, ap, some, arith, List, [], ◌∷◌, ◌++◌}
use funkyd.Base.Int.{ℤ}
use funkyd.Base.Floats.{Floats}
use funkyd.Config.{Configuration}
use funkyd.Dns.{Msg}
use funkyd.Upstream.{Upstream}
use funkyd.ConnPool.{SortSlice}
use funkyd.Server.{DnsLib}
use funkyd.MutexServer.Handler.{MutexServer}
use funkyd.MutexServer.Threads.{
  Job, new_job, Stage, Threads, start_threads, spawns, proceeds, replies, cleans, delivers, purges,
  Course, here, next,
}

module _ {F : Type 0} where
  -- The clients whose requests are being handled, and those that have a reply.
  abbrev pub waiting : List (Job × Stage F) → List ℕ
  waiting [] = []
  waiting ((job, stage) ∷ ts) = job.client ∷ waiting ts

  abbrev pub replied : Threads F → List ℕ
  replied t = map (λ (r : ℕ × Msg). r.0) t.replies

  waiting-proceeds :
      (xs : List (Job × Stage F)) (job : Job) (stage stage' : Stage F) (ys : List (Job × Stage F))
      → waiting (xs ++ (job, stage) ∷ ys) ≡ waiting (xs ++ (job, stage') ∷ ys)
  waiting-proceeds [] job stage stage' ys = refl
  waiting-proceeds ((j, s) ∷ xs) job stage stage' ys =
      ap (λ l. j.client ∷ l) (waiting-proceeds xs job stage stage' ys)

  waiting-replies :
      (xs : List (Job × Stage F)) (job : Job) (stage : Stage F) (ys : List (Job × Stage F))
      (rs : List ℕ)
      → Perm (waiting (xs ++ ys) ++ job.client ∷ rs) (waiting (xs ++ (job, stage) ∷ ys) ++ rs)
  waiting-replies [] job stage ys rs = perm_middle (waiting ys) rs
  waiting-replies ((j, s) ∷ xs) job stage ys rs =
      Perm.cons j.client (waiting-replies xs job stage ys rs)

new_job-client :
    (dns : DnsLib) (client : ℕ) (request : Msg) (job : Job)
    → new_job dns client request ≡ some job
    → job.client ≡ client
unfolding new_job
new_job-client dns client request job e = ground arith

module _ {F : Type 0} (fl : Floats F) (sort_slice : SortSlice (Upstream F)) (config : Configuration)
    (u : ℤ → ℕ) (dns : DnsLib) where
  -- Each request received has either one goroutine or one reply.
  pub Course-received :
      (s : MutexServer F) (t : Threads F)
      → Course fl sort_slice config u dns (start_threads s) t
      → Perm (waiting t.threads ++ replied t) t.received
  Course-received s t here = Perm.nil
  Course-received s t (next {v = x} c (spawns client request job e k)) =
      rw k (rw (new_job-client dns client request job e) (Perm.cons client (Course-received s x c)))
  Course-received s t (next {v = x} c (proceeds w xs job stage stage' ys s' e went k)) =
      let v = Course-received s x c in rw k (rw (e, waiting-proceeds xs job stage stage' ys) at v)
  Course-received s t (next {v = x} c (replies w xs job stage ys s' reply e went k)) =
      let v = Course-received s x c in
      rw k (Perm.trans (waiting-replies xs job stage ys (replied x)) (rw e at v))
  Course-received s t (next {v = x} c (cleans now runs k)) = rw k (Course-received s x c)
  Course-received s t (next {v = x} c (delivers xs r ys d e went k)) = rw k (Course-received s x c)
  Course-received s t (next {v = x} c (purges now xs ce ys e k)) = rw k (Course-received s x c)
