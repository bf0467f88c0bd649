-- ===== src/Gpmi/Queue.antt =====
-- The data FIFO of hw/block/stmp3770_gpmi.c as a queue of at most 64 bytes.
use emu_gii.Prelude.{
  ◌⊎◌, inl, inr, ℕ, zero, suc, ◌+◌, ◌-◌, ◌<◌, ◌≡◌, refl, sym, ◌∙◌, ap, ap₂, subst, arith, Bool,
  true, false, List, [], ◌∷◌, Option, none, some, ◌==◌, if◌then◌else◌, length, get_or, memcpy,
  memcpy-inside, shift_by, put_byte,
}
use emu_gii.Gpmi.Fifo.{
  Fifo, fifo_size, Pushed, Popped, update_fifo_status, fifo_clear, fifo_push_byte, fifo_pop_byte,
}

-- What the CPU or the chip asks of the FIFO, and what it answers: whether a byte was taken, and the
-- byte that came out, if any did.
pub data Request : Type 0 where
  push : ℕ → Request
  pop : Request

pub data Answer : Type 0 where
  pushed : Bool → Answer
  popped : Option ℕ → Answer

-- One request, on a state of any kind.
pub record Served (S : Type 0) : Type 0 where
  pub state : S
  pub answer : Answer

unfoldable pub serve : Fifo → Request → Served Fifo
unfolding fifo_push_byte fifo_pop_byte
serve f (Request.push v) =
    let r = fifo_push_byte f v in record { state = r.fifo; answer = Answer.pushed r.success }
serve f Request.pop =
    let r = fifo_pop_byte f 0 in
    record { state = r.fifo; answer = Answer.popped (if r.success then some r.value else none) }

-- A byte at the end.
abbrev pub snoc : List ℕ → ℕ → List ℕ
snoc [] v = v ∷ []
snoc (x ∷ q) v = x ∷ snoc q v

-- The queue: the first byte in is the first out, and a full queue refuses.
unfoldable pub serve_queue : List ℕ → Request → Served (List ℕ)
serve_queue q (Request.push v) =
    if length q == fifo_size
    then record { state = q; answer = Answer.pushed false }
    else record { state = snoc q v; answer = Answer.pushed true }
serve_queue [] Request.pop = record { state = []; answer = Answer.popped none }
serve_queue (x ∷ q) Request.pop = record { state = q; answer = Answer.popped (some x) }

-- The answers to a list of requests.
unfoldable pub answers : {S : Type 0} → (S → Request → Served S) → List Request → S → List Answer
answers serve [] s = []
answers serve (r ∷ requests) s =
    let here = serve s r in here.answer ∷ answers serve requests here.state

-- The FIFO holds the bytes of the queue.
record Holds (q : List ℕ) (f : Fifo) : Type 0 where
  count : f.fifo_count ≡ length q
  bytes : (i : ℕ) → i < length q → f.data_fifo i ≡ get_or q i 0

length-snoc : (q : List ℕ) (v : ℕ) → length (snoc q v) ≡ length q + 1
length-snoc [] v = refl
length-snoc (x ∷ q) v = omega (arith, length-snoc q v)

get_or-snoc : (q : List ℕ) (v i : ℕ) → i < length q → get_or (snoc q v) i 0 ≡ get_or q i 0
get_or-snoc [] v i h = absurd (omega arith)
get_or-snoc (x ∷ q) v zero h = refl
get_or-snoc (x ∷ q) v (suc i) h = get_or-snoc q v i (omega arith)

get_or-snoc_last : (q : List ℕ) (v : ℕ) → get_or (snoc q v) (length q) 0 ≡ v
get_or-snoc_last [] v = refl
get_or-snoc_last (x ∷ q) v = get_or-snoc_last q v

-- One request: the same answer, and the FIFO holds the queue again.
record Agrees (a : Served Fifo) (b : Served (List ℕ)) : Type 0 where
  answer : a.answer ≡ b.answer
  holds : Holds b.state a.state

abbrev push_served : Pushed → Served Fifo
push_served r = record { state = r.fifo; answer = Answer.pushed r.success }

push-Agrees :
    (q : List ℕ) (f : Fifo) (v : ℕ)
    → Holds q f
    → Agrees (serve f (Request.push v)) (serve_queue q (Request.push v))
unfolding serve serve_queue fifo_push_byte update_fifo_status
push-Agrees q f v h =
    subst
      (λ (n : ℕ). Agrees (serve f (Request.push v)) (
        if n == fifo_size
        then record { state = q; answer = Answer.pushed false }
        else record { state = snoc q v; answer = Answer.pushed true }))
      h.count (by_size (f.fifo_count == fifo_size))
  where
    -- The code's branches, and the queue's, by the test on the size.
    taken : Served Fifo
    taken = record {
      state = update_fifo_status (record f {
        data_fifo = put_byte f.data_fifo f.fifo_count v;
        fifo_count = f.fifo_count + 1;
      });
      answer = Answer.pushed true;
    }

    byte :
        (i : ℕ)
        → i < length (snoc q v)
        → put_byte f.data_fifo f.fifo_count v i ≡ get_or (snoc q v) i 0
    byte i below = elim (last i below) [
      | inl here ↦
          ground (arith, here, h.count)
          ∙ sym (get_or-snoc_last q v)
          ∙ ap (λ (j : ℕ). get_or (snoc q v) j 0) (sym here)
      | inr before ↦
          ground (arith, before, h.count) ∙ h.bytes i before ∙ sym (get_or-snoc q v i before)
    ]
      where
        last : (j : ℕ) → j < length (snoc q v) → (j ≡ length q) ⊎ (j < length q)
        last j b = omega (arith, length-snoc q v)

    by_size :
        (b : Bool)
        → Agrees
            (push_served (
              if b
              then record { fifo = update_fifo_status f; success = false }
              else record { fifo = taken.state; success = true }))
            (if b
              then record { state = q; answer = Answer.pushed false }
              else record { state = snoc q v; answer = Answer.pushed true })
    by_size true = record { answer = refl; holds = record { count = h.count; bytes = h.bytes } }
    by_size false = record {
      answer = refl;
      holds = record { count = omega (arith, length-snoc q v, h.count); bytes = byte };
    }

pop-Agrees :
    (q : List ℕ) (f : Fifo) → Holds q f → Agrees (serve f Request.pop) (serve_queue q Request.pop)
unfolding serve serve_queue fifo_pop_byte update_fifo_status
pop-Agrees q f h = from_count q h
  where
    pop_served : Popped → Served Fifo
    pop_served r = record {
      state = r.fifo;
      answer = Answer.popped (if r.success then some r.value else none);
    }

    moved : Fifo
    moved = update_fifo_status (record f {
      data_fifo = memcpy f.data_fifo 0 (shift_by 1 f.data_fifo) (f.fifo_count - 1);
      fifo_count = f.fifo_count - 1;
    })

    by_count : Bool → Served Fifo
    by_count b = pop_served (
        if b
        then record { fifo = update_fifo_status f; success = false; value = 0 }
        else record { fifo = moved; success = true; value = f.data_fifo 0 })

    from_count :
        (p : List ℕ) → Holds p f → Agrees (by_count (f.fifo_count == 0)) (serve_queue p Request.pop)
    from_count [] k =
        subst (λ (b : Bool). Agrees (by_count b) (serve_queue [] Request.pop))
          (sym (ap (λ (n : ℕ). n == 0) k.count))
          (record { answer = refl; holds = record { count = k.count; bytes = k.bytes } })
    from_count (x ∷ p) k =
        let some_bytes : (f.fifo_count == 0) ≡ false = ground (arith, k.count) in
        subst (λ (b : Bool). Agrees (by_count b) (serve_queue (x ∷ p) Request.pop)) (sym some_bytes)
          (record {
            answer = ap (λ (y : ℕ). Answer.popped (some y)) (k.bytes 0 (omega arith));
            holds = record {
              count = omega (arith, k.count);
              bytes = λ i below.
                  memcpy-inside f.data_fifo 0 (shift_by 1 f.data_fifo) (f.fifo_count - 1) i
                    (omega arith) (omega (arith, k.count))
                  ∙ ap f.data_fifo (omega arith)
                  ∙ k.bytes (suc i) (omega arith);
            };
          })

serve-Agrees :
    (q : List ℕ) (f : Fifo) (r : Request) → Holds q f → Agrees (serve f r) (serve_queue q r)
serve-Agrees q f (Request.push v) h = push-Agrees q f v h
serve-Agrees q f Request.pop h = pop-Agrees q f h

answers-queue_from :
    (requests : List Request) (q : List ℕ) (f : Fifo)
    → Holds q f
    → answers serve requests f ≡ answers serve_queue requests q
unfolding answers
answers-queue_from [] q f h = refl
answers-queue_from (r ∷ requests) q f h =
    let a = serve-Agrees q f r h in
    ap₂ ◌∷◌ a.answer (answers-queue_from requests (serve_queue q r).state (serve f r).state a.holds)

-- After it is cleared, the FIFO answers any list of requests as a queue of at most 64 bytes does:
-- bytes come out in the order in which they went in, a full queue refuses a byte and keeps what it
-- has, and an empty one gives none.
pub answers-queue :
    (requests : List Request) (f : Fifo)
    → answers serve requests (fifo_clear f) ≡ answers serve_queue requests []
unfolding fifo_clear update_fifo_status
answers-queue requests f =
    answers-queue_from requests [] (fifo_clear f)
      (record { count = refl; bytes = λ i h. absurd (omega arith) })
