-- ===== src/Uring.antt =====
-- The io_uring rings of 08-storage-lab-buffered-vs-direct-io-in-10-minutes/10_uring_model.c. `SqRing`
-- and `CqRing` have the same code for 8 and for 16 slots, here one `Ring` with the number of
-- slots `n` as an argument. The counters are uint32_t and run freely. `res` is an int32_t: -22 is
-- `invalid`.
pub mod Queue
pub mod Enter
mod Tests
use inside_the_cpu_storage_a.Base.{
  ℕ, zero, suc, ◌+◌, ◌-◌, ◌*◌, ◌%◌, ◌^◌, Bool, true, false, ◌&&◌, Option, none, some, List, [], ◌∷◌,
  get_or, set, replicate, upto, leb, ◌==◌, if◌then◌else◌, ◌>>=◌, map,
}

pub record Sqe : Type 0 where
  pub opcode : ℕ
  pub fd : ℕ
  pub off : ℕ
  pub user_data : ℕ

pub data Res : Type 0 where
  bytes : ℕ → Res
  invalid : Res

pub record Cqe : Type 0 where
  pub user_data : ℕ
  pub res : Res

abbrev pub sq_n : ℕ
sq_n = 8

abbrev pub cq_n : ℕ
cq_n = 16

abbrev pub u32 : ℕ
u32 = 2 ^ 32

abbrev pub file_size : ℕ
file_size = 16 * 4096

abbrev pub k_read : ℕ
k_read = 22

pub record Ring {ℓ} (A : Type ℓ) : Type ℓ where
  pub slots : List A
  pub head : ℕ
  pub tail : ℕ

-- `tail - head` on uint32_t
abbrev pub count {ℓ} : {A : Type ℓ} → Ring A → ℕ
count r = (r.tail + u32 - r.head) % u32

-- `sq_push` and `cq_push`
unfoldable pub push {ℓ} : {A : Type ℓ} → ℕ → Ring A → A → Ring A × Bool
push n r x =
    if count r == n
    then (r, false)
    else (record r { slots = set r.slots (r.tail % n) x; tail = (r.tail + 1) % u32 }, true)

-- `sq_pop` and `cq_pop`; `d` stands for an entry outside the array
unfoldable pub pop {ℓ} : {A : Type ℓ} → ℕ → A → Ring A → Option (A × Ring A)
pop n d r =
    if r.head == r.tail
    then none
    else some (get_or r.slots (r.head % n) d, record r { head = (r.head + 1) % u32 })

abbrev pub zero_sqe : Sqe
zero_sqe = record { opcode = 0; fd = 0; off = 0; user_data = 0 }

abbrev pub zero_cqe : Cqe
zero_cqe = record { user_data = 0; res = bytes 0 }

abbrev pub empty_ring {ℓ} : {A : Type ℓ} → ℕ → A → Ring A
empty_ring n d = record { slots = replicate n d; head = 0; tail = 0 }

-- the completion of one submission; the sum is on uint64_t
unfoldable pub answer : Sqe → Cqe
answer s = record {
  user_data = s.user_data;
  res =
      if s.opcode == k_read && leb ((s.off + 4096) % 2 ^ 64) file_size then bytes 4096 else invalid;
}

-- the loop of `enter`, with fuel: both rings and `submitted`
unfoldable pub enter_loop : ℕ → Ring Sqe → Ring Cqe → Option (Ring Sqe × Ring Cqe × ℕ)
unfolding pop push answer
enter_loop zero sq cq = none
enter_loop (suc n) sq cq = elim (pop sq_n zero_sqe sq) [
  | none ↦ some (sq, cq, 0)
  | some (s, sq') ↦ enter_loop n sq' ((push cq_n cq (answer s)).0) >>= λ r. some (r.0, r.1, suc r.2)
]

-- A ring of eight is empty after eight rounds.
unfoldable pub enter : Ring Sqe → Ring Cqe → Option (Ring Sqe × Ring Cqe × ℕ)
unfolding enter_loop
enter sq cq = enter_loop (sq_n + 1) sq cq

-- `sq_push` for each entry in turn, and how many were accepted
unfoldable pub push_all : List Sqe → Ring Sqe → Ring Sqe × ℕ
unfolding push
push_all [] r = (r, 0)
push_all (s ∷ ss) r =
    let (r', ok) = push sq_n r s in
    let (last, accepted) = push_all ss r' in (last, (if ok then 1 else 0) + accepted)

-- `while (cq_pop(&cq, &c)) use(&c);`, with fuel
unfoldable pub drain : ℕ → Ring Cqe → Option (Ring Cqe × List Cqe)
unfolding pop
drain zero cq = none
drain (suc n) cq = elim (pop cq_n zero_cqe cq) [
  | none ↦ some (cq, [])
  | some (c, cq') ↦ drain n cq' >>= λ r. some (r.0, c ∷ r.1)
]

abbrev pub read_at : ℕ → ℕ → Sqe
read_at i id = record { opcode = k_read; fd = 3; off = i * 4096; user_data = id }

-- the main function: the completions used, and its exit status
unfoldable pub uring_main : Option (List Cqe × ℕ)
unfolding push_all enter drain
uring_main = do
  (sq, cq, submitted) ←
      enter ((push_all (map (λ i. read_at i i) (upto 4)) (empty_ring sq_n zero_sqe)).0)
        (empty_ring cq_n zero_cqe)
  (cq', used) ← drain (cq_n + 1) cq
  (last, accepted) ← some (push_all (map (λ i. read_at i (100 + i)) (upto 9)) sq)
  some (used, if (cq'.head == 4) && ((cq'.tail == 4) && (accepted == 8)) then 0 else 1)
