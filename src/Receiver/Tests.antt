-- ===== src/Receiver/Tests.antt =====
-- The receiver at concrete inputs, and runs with `-single`.
use mathlib.Core.List.{Permᴰ}
use rtlamr.Base.{ℕ, ◌+◌, List, [], ◌∷◌, true, false, none, ◌≡◌, inl, refl}
use rtlamr.Base.Text.{codes, bytes_eq, member, split, to_lower}
use rtlamr.Protocol.{Message, Digest, new_digest, digest_eq}
use rtlamr.Protocol.Chain.{match_chain}
use rtlamr.Receiver.{
  Filters, by_id, by_type, unique, has, last_of, unique_filter, run_filter, seen, Run, continue,
  cancel, after_encode, take_message, take_messages, end_block, run_block, run_blocks,
}
use rtlamr.Receiver.Flags.{add_keys, set_strings, message_types}
use rtlamr.Receiver.Single.{run_block-single}
use rtlamr.Base.{◌⊎◌}
use rtlamr.Protocol.Config.{PacketConfig, packet_config}
use rtlamr.Protocol.Decoder.FanOut.{Arrives, all_sent, sends}
use rtlamr.Receiver.Order.{run_block-arrivals}
use rtlamr.Receiver.Registration.{new_receiver, new_receiver-perm}
use rtlamr.Receiver.Waiting.{heard, run_blocks-heard}
use rtlamr.Receiver.Laws.{passed, rev_onto, run_block-passed}

abbrev reading : ℕ → ℕ → Message
reading id sum = record {
  fields = [];
  headers = none;
  msg_type = codes "SCM";
  meter_id = id;
  meter_type = 4;
  checksum = sum ∷ [];
}

abbrev only_five : Filters
only_five = record { ids = 5 ∷ []; types = []; last = [] }

abbrev after_one : Run
after_one = record {
  filters = only_five;
  prev = new_digest (reading 5 1) ∷ [];
  next = [];
  found = false;
  encoded = [];
}

-- Of four messages one repeats the block before, one is of another meter.
run_block-passed_example :
    (r' : Run) × (run_block
        (by_id ∷ unique ∷ [])
        false
        (λ msg. true)
        (reading 5 1 ∷ reading 6 3 ∷ reading 5 2 ∷ reading 5 2 ∷ [])
        after_one
      ≡ continue r')
    × (r'.encoded ≡ reading 5 2 ∷ [])
    × (r'.prev ≡ new_digest (reading 5 2) ∷ new_digest (reading 5 1) ∷ [])
unfolding passed rev_onto seen new_digest digest_eq match_chain run_filter unique_filter last_of has
    bytes_eq
run_block-passed_example =
    run_block-passed (by_id ∷ unique ∷ []) (λ msg. true) (λ msg. refl)
      (reading 5 1 ∷ reading 6 3 ∷ reading 5 2 ∷ reading 5 2 ∷ []) after_one

-- With `-single` and one id to wait for, the receiver stops after its message.
single_stops :
    run_block
      (by_id ∷ [])
      true
      (λ msg. true)
      (reading 6 3 ∷ reading 5 2 ∷ [])
      (record { filters = only_five; prev = []; next = []; found = false; encoded = [] })
    ≡ cancel (record {
      filters = record { ids = []; types = []; last = [] };
      prev = [];
      next = new_digest (reading 5 2) ∷ [];
      found = true;
      encoded = reading 5 2 ∷ [];
    })
unfolding run_block take_messages take_message after_encode end_block seen new_digest digest_eq
    match_chain run_filter has bytes_eq
single_stops = refl

all_types :
    message_types (set_strings (codes "ALL"))
    ≡ codes "scm" ∷ codes "scm+" ∷ codes "idm" ∷ codes "r900" ∷ []
unfolding message_types set_strings bytes_eq add_keys split member to_lower
all_types = refl

abbrev no_ids : Run
no_ids = record {
  filters = record { ids = []; types = 4 ∷ []; last = [] };
  prev = new_digest (reading 5 1) ∷ [];
  next = [];
  found = false;
  encoded = [];
}

run_block-single_example :
    ((r' : Run) × (run_block
          (by_type ∷ [])
          true
          (λ msg. true)
          (reading 5 1 ∷ reading 5 2 ∷ reading 6 3 ∷ [])
          no_ids
        ≡ continue r')
      × (r'.encoded ≡ []))
    ⊎ ((msg : Message) × (r' : Run) × (run_block
            (by_type ∷ [])
            true
            (λ msg. true)
            (reading 5 1 ∷ reading 5 2 ∷ reading 6 3 ∷ [])
            no_ids
          ≡ cancel r')
        × (r'.encoded ≡ msg ∷ []))
run_block-single_example =
    run_block-single (by_type ∷ []) (λ msg. true) (λ msg. refl)
      (reading 5 1 ∷ reading 5 2 ∷ reading 6 3 ∷ []) no_ids refl

abbrev two_queues : List (List Message)
two_queues = (reading 5 2 ∷ []) ∷ (reading 5 3 ∷ reading 6 1 ∷ []) ∷ []

first_queue_first : Arrives two_queues (reading 5 2 ∷ reading 5 3 ∷ reading 6 1 ∷ [])
first_queue_first =
    sends [] [] ((reading 5 3 ∷ reading 6 1 ∷ []) ∷ []) refl
      (sends ([] ∷ []) (reading 6 1 ∷ []) [] refl (sends ([] ∷ []) [] [] refl (all_sent refl)))

in_turns : Arrives two_queues (reading 5 3 ∷ reading 5 2 ∷ reading 6 1 ∷ [])
in_turns =
    sends ((reading 5 2 ∷ []) ∷ []) (reading 6 1 ∷ []) [] refl
      (sends [] [] ((reading 6 1 ∷ []) ∷ []) refl (sends ([] ∷ []) [] [] refl (all_sent refl)))

run_block-arrivals_example :
    (r1 : Run) × (r2 : Run) × (new1 : List Message) × (new2 : List Message) × (run_block
        (by_id ∷ [])
        false
        (λ msg. true)
        (reading 5 2 ∷ reading 5 3 ∷ reading 6 1 ∷ [])
        after_one
      ≡ continue r1)
    × (run_block
          (by_id ∷ [])
          false
          (λ msg. true)
          (reading 5 3 ∷ reading 5 2 ∷ reading 6 1 ∷ [])
          after_one
        ≡ continue r2)
    × (r1.encoded ≡ new1)
    × (r2.encoded ≡ new2)
    × Permᴰ new1 new2
    × ((d : Digest) → seen r1.prev d ≡ seen r2.prev d)
run_block-arrivals_example =
    run_block-arrivals (by_id ∷ []) (λ msg. true) (λ msg. refl) two_queues
      (reading 5 2 ∷ reading 5 3 ∷ reading 6 1 ∷ []) (reading 5 3 ∷ reading 5 2 ∷ reading 6 1 ∷ [])
      after_one (inl refl, tt) first_queue_first in_turns

abbrev config_of : ℕ → PacketConfig
config_of n = packet_config (codes "scm") (codes "10") 912600155 32768 n 2 8

new_receiver-perm_example :
    new_receiver config_of 72
      ((codes "scm", λ n. n + 0) ∷ (codes "idm", λ n. n + 1) ∷ [])
      (codes "scm" ∷ codes "idm" ∷ [])
    ≡ new_receiver config_of 72
        ((codes "scm", λ n. n + 0) ∷ (codes "idm", λ n. n + 1) ∷ [])
        (codes "idm" ∷ codes "scm" ∷ [])
new_receiver-perm_example =
    new_receiver-perm config_of 72 ((codes "scm", λ n. n + 0) ∷ (codes "idm", λ n. n + 1) ∷ [])
      (codes "scm" ∷ codes "idm" ∷ []) (codes "idm" ∷ codes "scm" ∷ []) (Permᴰ.swap refl refl)

abbrev waiting : Run
waiting = record { filters = only_five; prev = []; next = []; found = false; encoded = [] }

run_blocks-heard_example : heard (reading 5 2 ∷ []) 5 ≡ true
unfolding run_blocks run_block take_messages take_message after_encode end_block seen new_digest
    digest_eq match_chain run_filter has bytes_eq
run_blocks-heard_example =
    run_blocks-heard (by_id ∷ []) (λ msg. true) (λ msg. refl)
      ((reading 6 3 ∷ []) ∷ (reading 5 2 ∷ []) ∷ []) waiting
      (record {
        filters = record { ids = []; types = []; last = [] };
        prev = [];
        next = new_digest (reading 5 2) ∷ [];
        found = true;
        encoded = reading 5 2 ∷ [];
      })
      5 refl refl
