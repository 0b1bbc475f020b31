-- ===== src/Tests/Relations.antt =====
-- storage/disk_manager.cpp on a relation of three pages whose second is free.
use granite_db.Prelude.{◌*◌, ◌≡◌, refl, [], ◌∷◌, some, ok, err, arith}
use granite_db.Types.{page_size}
use granite_db.Row.Bitmap.{zeros, length-zeros}
use granite_db.Disk.{
  RelationHandle, serialize_free_list, too_many_pages, create_relation, open_relation, allocate,
  deallocate, drop_page, set_insert, trim_loop, load_allocator_state, load_free_pages,
}
use granite_db.Disk.Views.{IsAllocator}
use granite_db.Disk.Allocate.{IsTaken, allocate-IsTaken}
use granite_db.Disk.Deallocate.{IsDropped, deallocate-IsDropped}
use granite_db.Disk.Reopen.{IsSettled, deallocate_crash}
use granite_db.Disk.System.{creates, allocates, Reached-reopens}

abbrev three_pages : RelationHandle
three_pages = record {
  file = zeros (3 * page_size);
  allocator_state = some (serialize_free_list 3 (1 ∷ []));
  num_pages = 3;
  free_pages = 1 ∷ [];
}

three_pages-IsAllocator : IsAllocator three_pages
three_pages-IsAllocator = record {
  ascending = (tt, tt);
  below = (omega arith, tt);
  whole = omega (arith, length-zeros (3 * page_size));
  small = omega arith;
}

three_pages-IsSettled : IsSettled three_pages
three_pages-IsSettled = record {
  allocator = three_pages-IsAllocator;
  exact = length-zeros (3 * page_size);
  saved = refl;
}

-- Freeing the last page takes the free page before it along.
trimmed_both : trim_loop (set_insert 2 (1 ∷ [])) 3 ≡ ([], 1)
unfolding trim_loop set_insert
trimmed_both = refl

allocate-IsTaken_example : IsTaken three_pages (allocate three_pages).0 (allocate three_pages).1
allocate-IsTaken_example = allocate-IsTaken three_pages three_pages-IsAllocator (omega arith)

deallocate-IsDropped_example :
    (h : RelationHandle) × (deallocate 2 three_pages ≡ ok h) × IsDropped three_pages 2 h
deallocate-IsDropped_example =
    deallocate-IsDropped three_pages 2 three_pages-IsAllocator (omega arith)

deallocate_crash_example :
    (d : RelationHandle) × (drop_page 2 three_pages ≡ ok d)
    × (open_relation d.file three_pages.allocator_state ≡ err too_many_pages)
deallocate_crash_example = deallocate_crash three_pages 2 three_pages-IsSettled refl

abbrev empty_relation : RelationHandle
empty_relation = record {
  file = [];
  allocator_state = some (serialize_free_list 0 []);
  num_pages = 0;
  free_pages = [];
}

Reached-reopens_example :
    open_relation (allocate empty_relation).1.file (allocate empty_relation).1.allocator_state
    ≡ ok (allocate empty_relation).1
unfolding create_relation open_relation load_allocator_state serialize_free_list load_free_pages
Reached-reopens_example =
    Reached-reopens (allocate empty_relation).1
      (allocates empty_relation (creates empty_relation refl) (omega arith))
