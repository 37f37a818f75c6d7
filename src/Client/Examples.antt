-- ===== src/Client/Examples.antt =====
-- The client's side of vanadium on small inputs: client-sdk/src.
use vanadium.Prelude.{
  ℕ, ◌+◌, ◌%◌, ◌≡◌, refl, arith, false, List, [], ◌∷◌, ◌++◌, replicate, none, some, Outcome, ok,
}
use vanadium.Accumulator.{MerkleAccumulator, build_tree, element, hash_element, root}
use vanadium.Accumulator.Tree.{IsTree, build_tree-IsTree}
use vanadium.Message.{SectionKind}
use vanadium.Message.Page.{new_get_page, serialize_get_page}
use vanadium.Vm.Memory.{Page}
use vanadium.Paging.Device.{Device}
use vanadium.Paging.Outsourced.{OutsourcedMemory, n_pages_adjusted, next_power, load_page}
use vanadium.Paging.Outsourced.Access.{new}
use vanadium.Paging.Evict.{lru_strategy, lru_new}
use vanadium.Client.Engine.{Reply, VAppEngine}
use vanadium.Client.Serve.{process_get_page}
use vanadium.Client.Conversation.{answered}
use vanadium.Client.Conversation.Sender.{asks_then, linked}
use vanadium.Client.Conversation.Served.{more_proof, leaf_of}
use vanadium.Prelude.{true}
use vanadium.Accumulator.{updated}
use vanadium.Message.Commit.{new_commit_page, serialize_commit_page}
use vanadium.Paging.Outsourced.{CachedPage, serialized_page, commit_encrypted}
use vanadium.Client.Serve.{process_commit_page}
use vanadium.Client.Conversation.Stored.{more_update, with_content}
use vanadium.Client.Conversation.Commit.{commit_encrypted-process_commit_page}
use vanadium.Client.Memory.{serialized_pages}
use vanadium.Client.Memory.Pages.{HasPages, serialized_pages-HasPages}
use vanadium.Client.Conversation.Load.{load_page-process_get_page}

abbrev total : List ℕ → ℕ
total [] = 0
total (x ∷ xs) = x + total xs

abbrev toy : Device
toy = record {
  digest = λ x. total x % 256 ∷ replicate 31 0;
  block_cipher = λ block. some (replicate 16 7);
  hmac_sha256 = λ key message. none;
  vm_auth_key = [];
}

abbrev no_nonce : List ℕ
no_nonce = replicate 12 0

abbrev page_of_twos : Page
page_of_twos = replicate 256 2

abbrev leaves : List (List ℕ)
leaves = leaf_of false no_nonce (replicate 256 1) ∷ leaf_of false no_nonce page_of_twos ∷ []

abbrev two_pages : MerkleAccumulator
two_pages = record { elements = leaves; tree = build_tree toy.digest 32 leaves }

two_pages-IsTree : IsTree toy.digest two_pages
two_pages-IsTree = build_tree-IsTree toy.digest 32 leaves (omega arith)

-- A transport with no errors of its own.
abbrev engine : VAppEngine (Unit {0})
engine = record {
  code_seg = record { content = two_pages };
  data_seg = record { content = two_pages };
  stack_seg = record { content = two_pages };
  transport = record { replies = []; sent = [] };
  code_hmacs = none;
}

abbrev memory : OutsourcedMemory lru_strategy
memory =
    new lru_strategy (record { answers = []; sent = [] }) 1 false SectionKind.data_section 2
      (root two_pages) no_nonce (lru_new 1) []

two_counted : n_pages_adjusted 2 ≡ some 2
unfolding n_pages_adjusted next_power
two_counted = refl

load_page-process_get_page_example :
    (n : ℕ) × (messages : List (List ℕ)) × (load_page toy lru_strategy memory 1
        (record { answers = answered messages ++ []; sent = [] })
      ≡ (
        ok (page_of_twos, hash_element toy.digest (element leaves 1)),
        record {
          answers = [];
          sent =
              serialize_get_page (new_get_page SectionKind.data_section 1) ∷ replicate n more_proof;
        },
      ))
    × ((final : Reply) (more : List (Outcome (Unit {0}) Reply))
        → process_get_page
            (serialize_get_page (new_get_page SectionKind.data_section 1))
            (linked engine (asks_then more_proof n final more) [])
          ≡ (ok final, linked engine more messages))
unfolding new
load_page-process_get_page_example =
    load_page-process_get_page toy lru_strategy memory (λ x. refl) engine 1 false no_nonce
      page_of_twos page_of_twos [] two_pages-IsTree (omega arith) (omega arith) two_counted refl
      refl refl refl refl refl refl

abbrev dirty : CachedPage
dirty = record {
  idx = 1;
  page = page_of_twos;
  page_hash = hash_element toy.digest (element leaves 1);
  valid = true;
  modified = true;
}

abbrev payload : List ℕ
payload = replicate 256 3

abbrev stored : MerkleAccumulator
stored = updated toy.digest two_pages 1 (serialized_page payload (some no_nonce))

commit_encrypted-process_commit_page_example :
    (n : ℕ) × (messages : List (List ℕ)) × (commit_encrypted toy lru_strategy memory dirty no_nonce
        payload
        (record { answers = answered messages ++ []; sent = [] })
      ≡ (
        ok (root stored),
        record {
          answers = [];
          sent =
              serialize_commit_page
                (new_commit_page SectionKind.data_section 1 true no_nonce payload)
              ∷ replicate n more_update;
        },
      ))
    × ((final : Reply) (more : List (Outcome (Unit {0}) Reply))
        → process_commit_page toy.digest
            (serialize_commit_page
              (new_commit_page SectionKind.data_section 1 true no_nonce payload))
            (linked engine (asks_then more_update n final more) [])
          ≡ (ok final, linked (with_content engine SectionKind.data_section stored) more messages))
unfolding new
commit_encrypted-process_commit_page_example =
    commit_encrypted-process_commit_page toy lru_strategy memory (λ x. refl) engine dirty no_nonce
      payload [] refl two_pages-IsTree (omega arith) (omega arith) (omega arith) two_counted refl
      refl refl refl

-- Three bytes at address 510, on two pages.
serialized_pages-HasPages_example :
    HasPages 510 513 (7 ∷ 8 ∷ 9 ∷ []) 510 (serialized_pages 4 510 513 (7 ∷ 8 ∷ 9 ∷ []) 510)
serialized_pages-HasPages_example =
    serialized_pages-HasPages 510 (7 ∷ 8 ∷ 9 ∷ []) (omega arith) (λ no_bytes. absurd (omega arith))
