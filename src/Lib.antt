-- ===== src/Lib.antt =====
-- Verification of linux-pcie-dma: a PCI co-processor that cleans virtines, emulated in QEMU, and
-- the kernel modules that drive it.
--
-- The program. A virtine is a small virtual machine, here the physical address of its memory. The
-- device (qemu-fpga-char/virtine_fpga.c) has two ring queues behind a register file: dirty virtines
-- go into the ready queue (RQ); a thread, started by a doorbell register, copies a snapshot over
-- each one by DMA, moves it to the completed queue (CQ), and raises an interrupt for every
-- `batch_factor` virtines. The driver (fpga-char/) offers the register file as a device file with
-- read, write and ioctl, and fetches the clean virtines in its interrupt handler. The echo module
-- (pcie-echo/) is a first driver for the same device that writes a word and reads it back. Beside
-- them are a sample character device (sample-char/) and programs that try the driver
-- (fpga-char-test/).
--
-- The files, with what they model.
--   Common          names that the files share, tests, lists, 64-bit halves, signed results
--   Registers       the register map, of the device (virtine_fpga.c:38-53) and, in
--                   Registers.Driver, of the driver (fpga-char/fpga_char_main.h:60-74)
--   Fifo            what a ring queue promises: a bounded first-in first-out queue
--   RingQueue       struct virtine_ring_queue with reset_queue_pointers, end_of_queue, within,
--                   next_element, peek_previous_element, pop_head and insert_tail; its child
--                   Invariant says which FIFO a queue stores (any elements) or represents
--                   (addresses of virtines, never 0), Pop, Insert and Run compare the calls with
--                   the FIFO's, View takes the quotient of the queues by what their pops return,
--                   Filled counts the cells that are not 0
--   Device          the state of VirtineFpgaDevice; Device.Effects what it asks of QEMU;
--                   Device.Realize virtine_fpga_realize; Device.Mmio the handlers
--                   virtine_fpga_mmio_read and virtine_fpga_mmio_write; Device.Cleanup a batch of
--                   virtine_fpga_virtine_cleanup as one function; Device.Thread its waiting and
--                   waking, with the doorbell and virtine_fpga_uninit, as interleaved steps;
--                   Device.Machine all statements of that thread interleaved with the guest's
--                   accesses and the unloading, over the whole device, with the two locks. Its
--                   children: Places (where each of the three stands), Refine (against
--                   Device.Thread), Batch (against Device.Cleanup), Deadlock and Progress, Teardown
--                   and Ending (virtine_fpga_uninit to its end, and the thread's), Accounts (where
--                   every virtine is), Interrupts (how many are raised), Snapshot (what is copied),
--                   Service (all of these from virtine_fpga_realize on), Alone and Rest (the thread
--                   left alone, to its sleep), Torn (a snapshot address set in a batch)
--   Driver          the bus that the driver works on; Driver.Chardev _fpga_char_read (here
--                   fpga_char_read_kernel), fpga_char_read, fpga_char_write and fpga_char_ioctl of
--                   fpga-char/chardev.c; Driver.Chardev.Files fpga_char_open and
--                   fpga_char_release, Driver.Chardev.History any sequence of them,
--                   Driver.Chardev.Lifetime them together with the probes and removals of the
--                   device; Driver.Chardev.Writes a write of any length;
--                   Driver.Chardev.Requests the numbers of the ioctl requests, of the module and of
--                   its programs; Driver.Irq fetch_clean_virtines of
--                   fpga-char/fpga_char_main.c, over a device that may work in between in
--                   Driver.Irq.Bounds; Driver.Probe fpga_probe, fpga_remove,
--                   create_char_devs and destroy_char_devs, as logs of Driver.Resources;
--                   Driver.Module any number of attachments between fpga_char_main_init and
--                   fpga_char_main_exit, what they leak (Leaks), when the handler lacks what it
--                   reads (Windows) and what the whole life gives back (Life); Driver.Ids the id
--                   tables of both modules and the device's ids
--   System          driver and device joined: the bus that calls the device's handlers, single
--                   transfers and ioctls, long writes (System.Bulk), one use of the co-processor
--                   from end to end; in System.Writers the interleaved stores of two writers, in
--                   System.Readers a reader that the interrupt handler interrupts; System.Handler
--                   the interrupt handler on Device.Machine, whose thread works between its
--                   accesses, in its child Returned the handler after the thread has gone to sleep
--   PcieEcho        echo_probe, echo_remove, release_device, run_test and the two accesses of
--                   pcie-echo/pcie_fpga_echo.c; PcieEcho.Module any number of attachments between
--                   echo_init and echo_exit
--   SampleChar      the file operations of sample-char/sample_char.c, and in SampleChar.Queue what
--                   a read finds after any sequence of them, in SampleChar.Message what a write
--                   and an open leave in the message, in SampleChar.Life the module from its init
--                   to its exit
--   TestPrograms    the three programs of fpga-char-test/ over their system calls, one module each
--   Samples, Tests  concrete devices, runs, and the theorems at concrete inputs
--
-- How the model reads. State is a record and each C function that changes it returns the new one.
-- Numbers are natural numbers; where the code stores into 32 or 64 bits, the model takes the
-- remainder. A `hwaddr *` into a queue counts elements, so that `p + 1` is typed pointer
-- arithmetic. A read outside a buffer gives 0 and a write there changes nothing; Represents, the
-- invariant of RingQueue.Invariant, places both pointers inside. The thread holds the processing
-- lock for a whole batch, so that Device.Cleanup takes a batch as one step. The doorbell and the
-- settings are written without the lock: Device.Machine interleaves such accesses with the
-- statements of a batch, each statement and each handler being one step. There QEMU dispatches an
-- access and unplugs the device with the iothread lock held, as its documentation says.
--
-- Fuel. A batch has one unit more than the queue has places. The transfer loops take a unit for
-- each word and one more: three for eight bytes. The interrupt handler has a unit for each clean
-- virtine and one more. Running out is `none`, and the theorems give the result itself. The thread
-- of Device.Machine has no fuel: each of its states owes a number of steps (steps_owed).
--
-- In System.Handler the coming states in which an access gets in are a list, which the theorem
-- holds for whatever steps of the thread lead to them.
--
-- Guests. The accounts of virtines over all runs assume that the guest hands over no address 0
-- (Honest), and, where none is to be lost, that it keeps at most a hundred under way (Within); the
-- count of interrupts that it leaves the batch factor alone (Steady), the copies that it leaves the
-- snapshot's registers alone (Settled). What an address 0 does to the queues and to a batch is in
-- RingQueue and Device.Cleanup.Batch.
--
-- Attachments. The kernel hands a device to fpga_remove exactly if its probe returned no negative
-- error, keeps no driver data for a device without a driver, and opens no file of a device whose
-- node is gone. The theorem on faults, and that on the echo module's life, take the status calls to
-- answer 0 or a negative number (IsDocumented), the latter also ioremap to map the registers
-- (Remaps), and the id tables are matched as the kernel documents (IsMatch).
--
-- Parameters. What the kernel and QEMU answer is given to the functions: the outcome of each call,
-- user memory through copy_from_user, the bus. The theorems on joined 64-bit values assume that
-- copy_from_user works on mapped memory (Holds64), that on test-give-virtine.c that pwrite reaches
-- fpga_char_write (ReachesDriver), that on reads of the sample device that copy_to_user copies
-- nothing to a kernel address, and that on request numbers that the macros _IO, _IOR and _IOW
-- compute what the kernel documents.
--
-- Not modelled. Printing; the registration of QEMU's types and classes, single calls with constant
-- tables (of which the ids are in Driver.Ids); two devices at once, which would share the module's
-- globals; an error pointer from class_create, through which the code would write, and a
-- failing device_create; msi_uninit, which only QEMU sees; calls whose outcome the code ignores and
-- that take nothing; what lies behind an array that a copy overruns; hello-world/, which only
-- prints; example/, which keeps code published elsewhere.
pub mod Common
pub mod Registers
pub mod Fifo
pub mod RingQueue
pub mod Device
pub mod Driver
pub mod System
pub mod PcieEcho
pub mod Samples
pub mod Tests
pub mod SampleChar
pub mod TestPrograms
