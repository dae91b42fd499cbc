-- ===== src/Lib.antt =====
-- The Hoolock bonding driver: lossless handover of a mobile client between two network devices.
--
-- The program's core is 27/bond_main.c, the Linux 2.6.27 bonding driver extended by a mode `hoolock`
-- in which a user program moves the traffic from one slave device to the other: the ioctl `make`
-- changes the active slave and starts to buffer what comes in, `break` sends the buffered packets up.
-- 27/dev.c is the network core with the hook that stops a buffered packet. 24/ is an older copy.
--
-- Which file models what:
--   Common          tests on numbers and pointers, lists
--   Bond/State      27/bonding.h and 27/if_bonding.h: slaves, parameters, the bond, its devices
--   Bond/Slaves     the iterators and inline functions of 27/bonding.h
--   Bond/Ring       bond_attach_slave and bond_detach_slave on the links of the slaves
--   Bond/Active     choice and change of the active slave (bond_find_best_slave,
--                   bond_change_active_slave, bond_select_active_slave, bond_set_carrier, the
--                   multicast lists, the MAC address and the gratuitous ARP that go with it)
--   Bond/Invariant  what these keep, and what is relied on in bond_3ad.c and bond_alb.c
--   Bond/Vlans      the VLAN list of a bond, and what is passed on to the slaves' devices
--   Bond/Enslave    bond_enslave with its error labels, bond_setup_by_slave
--   Bond/Release    bond_release and bond_release_all
--   Bond/Arp        the ARP probes and their handler (bond_arp_send_all, bond_arp_rcv), and the ARP
--                   monitors (Balance: bond_loadbalance_arp_mon, Backup: bond_activebackup_arp_mon)
--   Bond/Notify     the notifiers: bond_netdev_event and bond_inetaddr_event
--   Bond/Settings   bond_change_mtu and bond_set_mac_address
--   Bond/Multicast  bond_set_multicast_list, and what it passes on to the slaves
--   Bond/Monitor    the MII link monitor (bond_miimon_inspect, bond_miimon_commit, bond_mii_monitor)
--   Transmit        the transmit functions of the modes and the hash policies
--   Ioctl           bond_do_ioctl (Commands: its second switch, for a slave device),
--                   bond_ioctl_change_active
--   Run             the entry points of the driver as steps, and what they reach
--   Device          bond_open and bond_close, the packet types and works that they register
--   Parameters      bond_parse_parm and bond_check_params: the module parameters
--   Net/Device      dev_set_promiscuity, dev_set_allmulti, netdev_set_master, dev_open and dev_close
--                   of 27/dev.c
--   Net/Receive     netif_receive_skb and deliver_skb of 27/dev.c
--   Hoolock/Make    bond_ioctl_make and bond_ioctl_hoolock_change_active
--   Hoolock/Recv    bond_hoolock_recv, the packet handler
--   Hoolock/Break   bond_ioctl_break
--   Client          src/hoolock_client.cc: its main as statements, before the loop and in it
--                   (Calls: what a statement does with the driver, the plumber and the controller;
--                   Message: src/message.h and the request; Socket: the loops round write and read;
--                   Mac: the hardware address in digits; Linked, Stages, Moves, Tells, Handover,
--                   Rounds, Start: a handover stage by stage)
--   HardClient      src/hard_client.cc: the loop of a client that breaks the one pipe before it
--                   makes the other (Exclusive, Rounds: never both, and a round stage by stage)
--   Plumber         src/plumb.c, the server that makes and breaks the pipes (Pipes: its processes,
--                   Ports: the sides that it connects)
--   Tests           sample data, and the theorems at concrete inputs
--
-- How state and operations correspond. A slave is named by its address; `Bonding.mem` is what stands
-- at an address, `Bonding.slaves` the addresses in the order of the circular list from `first_slave`
-- on, and `slave_cnt` is its length. A pointer that may be NULL is an Option. A slave's device is
-- stored with the slave. An operation takes the bond and returns the new one. Counters of delays are
-- natural numbers (bond_check_params resets a negative module parameter); counters that
-- can wrap have their modulus written out. A call into code outside the driver whose effect is on no
-- field of the model is an entry of `Bonding.events`. Code outside the sources that changes the bond
-- (bond_3ad.c, bond_alb.c, a device's driver) is the parameter `Extern`, with its laws in
-- `ExternLaws`; what bond_enslave and bond_release call besides is `Services`, with
-- `ServicesLaws`. `Hoolock.Break.break` takes as fuel one round more than there are packets: each
-- round takes one, and none comes in with the buffer mode off. `Bond.Release.bond_release_all` takes
-- one round more than there are slaves: each round releases the first one.
--
-- Whether locks spin, as on several processors, or are empty is `Extern.locks_spin`; with it
-- `Hoolock.Break.break` waits for ever for a lock that it holds. Of the other locks the model has
-- only that SIOCBONDHOOLOCKGETACTIVE can return with two of them held: each operation is one step,
-- and none waits for another.
--
-- Not modelled: the memory of freed objects; printing, /proc and sysfs; module loading;
-- the statistics; features of devices other than NETIF_F_VLAN_CHALLENGED, speed and duplex; the
-- tests in src/, src/simple_client.cc and src/output_handler.c; of src/hard_client.cc what comes
-- before its loop.
--
-- The client meets the driver in `Client.Calls.ask`, by `Ioctl.do_ioctl`, and the plumber in
-- `Client.Calls.tell_plumber`, by `Plumber.serve`. What the system calls answer are fields of
-- `Client.Opening` and `Client.Round`; what else happens to the driver between the client's calls is
-- the function `others` of a round. src/client.cc is the same program without its ping.
pub mod Common
pub mod Bond
pub mod Net
pub mod Hoolock
pub mod Transmit
pub mod Ioctl
pub mod Device
mod Tests
pub mod Run
pub mod Plumber
pub mod Client
pub mod Parameters
pub mod HardClient
