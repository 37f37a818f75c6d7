-- ===== src/Paging/Examples.antt =====
-- The parts of vm/src/handlers/lib, vm/src/aes.rs and vm/src/auth.rs on small inputs.
use vanadium.Prelude.{
  ℕ, ◌+◌, ◌%◌, ◌≡◌, ◌⊎◌, refl, arith, false, List, [], ◌∷◌, length, replicate, none, some, ok, All,
  ◌-◌,
}
use vanadium.Accumulator.{
  MerkleAccumulator, build_tree, element, hash_element, hash_leaf, hash_internal_node, hash_nodes,
  root, feed, feed_all, begin_inclusion_proof,
}
use vanadium.Accumulator.Tree.{IsTree, build_tree-IsTree}
use vanadium.Accumulator.Sound.Inputs.{Collision}
use vanadium.Message.{SectionKind, PageProofKind, flatten, chunks}
use vanadium.Message.Page.{
  new_get_page_response, serialize_get_page_response, deserialize_get_page_response,
}
use vanadium.Vm.Memory.{Page}
use vanadium.Paging.Session.{Session, continue, interrupt}
use vanadium.Paging.Device.{Device}
use vanadium.Paging.Talk.{ask, feed_rest, feed_all_rest}
use vanadium.Message.Page.{deserialize_proof_continued}
use vanadium.Paging.Talk.Turns.{BringsHash, IsShort, feed_all_rest-IsShort}
use vanadium.Paging.Outsourced.{
  OutsourcedMemory, serialized_page, get_page_hash, next_power, n_pages_adjusted, find_page,
  find_free, page_of, load_with_merkle, load_page,
}
use vanadium.Paging.Outsourced.Load.{opened, load_page_sound}
use vanadium.Paging.Outsourced.Access.{
  new, get_cached_page_ref, free_slot, load_into, find_or_load, get_page, put_page,
}
use vanadium.Paging.Outsourced.Access.Run.{read, write, Operation, run, reads, run-reads}
use vanadium.Paging.Evict.{lru_strategy, lru_new, lru_on_access, lru_on_load}

abbrev total : List ℕ → ℕ
total [] = 0
total (x ∷ xs) = x + total xs

-- A device with a checksum for a hash, and a block cipher that gives one keystream.
abbrev toy : Device
toy = record {
  digest = λ x. total x % 256 ∷ replicate 31 0;
  block_cipher = λ block. some (replicate 16 7);
  hmac_sha256 = λ key message. none;
  vm_auth_key = [];
}

toy-digest_size : (x : List ℕ) → length (toy.digest x) ≡ 32
toy-digest_size x = refl

abbrev page_of_ones : Page
page_of_ones = replicate 256 1

abbrev page_of_twos : Page
page_of_twos = replicate 256 2

abbrev page_of_threes : Page
page_of_threes = replicate 256 3

abbrev two_leaves : List (List ℕ)
two_leaves = serialized_page page_of_ones none ∷ serialized_page page_of_twos none ∷ []

abbrev two_pages : MerkleAccumulator
two_pages = record { elements = two_leaves; tree = build_tree toy.digest 32 two_leaves }

two_pages-IsTree : IsTree toy.digest two_pages
two_pages-IsTree = build_tree-IsTree toy.digest 32 two_leaves (omega arith)

-- The client's answer with the second page.
abbrev second_page : List ℕ
second_page = serialize_get_page_response (
    new_get_page_response page_of_twos false (replicate 12 0) 1 1 PageProofKind.merkle
      (hash_leaf toy.digest (serialized_page page_of_ones none) ∷ []))

abbrev session : Session
session = record { answers = continue 0 0 second_page ∷ []; sent = [] }

abbrev read_write_read : List Operation
read_write_read = read 1 ∷ write 1 page_of_threes ∷ read 1 ∷ []

abbrev small_memory : OutsourcedMemory lru_strategy
small_memory =
    new lru_strategy session 1 false SectionKind.data_section 2 (root two_pages) (replicate 12 0)
      (lru_new 1) []

small_memory-run : run toy lru_strategy read_write_read small_memory ≡ (
  ok (page_of_twos ∷ page_of_threes ∷ []),
  (run toy lru_strategy read_write_read small_memory).1,
)
unfolding run get_page find_or_load free_slot find_free find_page new load_into load_page ask
    interrupt deserialize_get_page_response serialize_get_page_response flatten chunks
    load_with_merkle n_pages_adjusted next_power feed_all_rest feed_rest feed_all feed
    begin_inclusion_proof get_page_hash page_of get_cached_page_ref put_page root build_tree
    hash_nodes hash_leaf hash_internal_node lru_new lru_on_load lru_on_access
small_memory-run = refl

two_counted : n_pages_adjusted 2 ≡ some 2
unfolding n_pages_adjusted next_power
two_counted = refl

run-reads_example :
    (reads read_write_read (λ i. opened toy (element two_leaves i))
      ≡ some (page_of_twos ∷ page_of_threes ∷ []))
    ⊎ Collision toy.digest
run-reads_example =
    run-reads toy lru_strategy toy-digest_size two_pages read_write_read session 1 2
      SectionKind.data_section (replicate 12 0) (lru_new 1) [] (page_of_twos ∷ page_of_threes ∷ [])
      (run toy lru_strategy read_write_read small_memory).1 two_pages-IsTree (omega arith)
      two_counted refl refl (omega arith) small_memory-run

loaded : load_page toy lru_strategy small_memory 1 session ≡ (
  ok (page_of_twos, get_page_hash toy.digest page_of_twos none),
  (load_page toy lru_strategy small_memory 1 session).1,
)
unfolding new load_page ask interrupt deserialize_get_page_response serialize_get_page_response
    flatten chunks load_with_merkle n_pages_adjusted next_power feed_all_rest feed_rest feed_all
    feed begin_inclusion_proof get_page_hash page_of root build_tree hash_nodes hash_leaf
    hash_internal_node
loaded = refl

load_page_sound_example :
    ((get_page_hash toy.digest page_of_twos none ≡ hash_element toy.digest (element two_leaves 1))
      × (opened toy (element two_leaves 1) ≡ some page_of_twos))
    ⊎ Collision toy.digest
unfolding new
load_page_sound_example =
    load_page_sound toy lru_strategy small_memory toy-digest_size two_pages 1 page_of_twos
      (get_page_hash toy.digest page_of_twos none) session
      (load_page toy lru_strategy small_memory 1 session).1 two_pages-IsTree refl two_counted
      (omega arith) (omega arith) refl loaded

-- Two answers that bring a hash each, for one hash to come.
abbrev one_hash : List ℕ
one_hash = 1 ∷ replicate 32 7

abbrev continued : Session
continued = record { answers = continue 0 0 one_hash ∷ continue 0 0 one_hash ∷ []; sent = [] }

continued_brings : All BringsHash continued.answers
unfolding deserialize_proof_continued
continued_brings = (omega arith, (omega arith, tt))

-- The verifier of this test counts the hashes that it is fed.
feed_all_rest-IsShort_example :
    IsShort
      (length continued.sent + (2 - 1))
      (feed_all_rest (λ hashes v. v + length hashes) [] 2 1 1 continued)
feed_all_rest-IsShort_example =
    feed_all_rest-IsShort (λ hashes v. v + length hashes) [] 2 1 1 continued continued_brings
