-- ===== src/ShmAlloc/Grants.antt =====
-- libckits/shmAlloc.c: `shm_malloc`, and the owners of the blocks.
use mcuproxy.ShmAlloc.{ShmAlloc}
